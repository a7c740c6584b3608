-- ===== src/Daemon.antt =====
-- The daemon of the organizer, c/organizer/organizer.c: the words that are typed and the messages that
-- go to the executer, which answers each of them. `none` is a word that overflows its array.
mod Tests
use mathlib.Core.List.{append-nil}
use hpv_c.Base.{
  Text, same_text, ℕ, suc, ◌+◌, ◌≤◌, ◌<◌, ◌≡◌, refl, ap, false, true, Bool, Option, none, some,
  List, [], ◌∷◌, ◌++◌, arith, All, ltb, lt→ltb, length, if◌then◌else◌, ◌>>=◌, ◌>>◌, require,
}

-- "teleport" and "start"
abbrev pub teleport_word : Text
teleport_word = b't' ∷ b'e' ∷ b'l' ∷ b'e' ∷ b'p' ∷ b'o' ∷ b'r' ∷ b't' ∷ []

abbrev pub start_word : Text
start_word = b's' ∷ b't' ∷ b'a' ∷ b'r' ∷ b't' ∷ []

-- A message OEMsg, by its type.
pub data OeMsg : Type 0 where
  teleport : Text → Text → OeMsg
  start : Text → OeMsg

-- What the next word is read for.
pub data Expected : Type 0 where
  cmd : Expected
  teleport_name : Expected
  teleport_target : Text → Expected
  start_name : Expected

-- A word and its end in an array of 50 chars.
abbrev pub scan_word : Text → Option (Unit {0})
scan_word word = require (ltb (length word) 50)

-- The loop over the words. At their end the arrays keep their zeros, and the empty command ends the
-- loop, as do "exit" and any other word.
unfoldable pub run_commands : Expected → List Text → Option (List OeMsg)
run_commands cmd [] = some []
run_commands cmd (word ∷ words) =
    let to_teleport = run_commands teleport_name words in
    let to_start = run_commands start_name words in
    let next =
      if same_text word teleport_word
      then to_teleport
      else if same_text word start_word
      then to_start
      else some [] in
    scan_word word >> next
run_commands teleport_name [] = some (teleport [] [] ∷ [])
run_commands teleport_name (word ∷ words) =
    let rest = run_commands (teleport_target word) words in scan_word word >> rest
run_commands (teleport_target name) [] = some (teleport name [] ∷ [])
run_commands (teleport_target name) (word ∷ words) =
    let rest = run_commands cmd words in
    scan_word word >> (rest >>= λ messages. some (teleport name word ∷ messages))
run_commands start_name [] = some (start [] ∷ [])
run_commands start_name (word ∷ words) =
    let rest = run_commands cmd words in
    scan_word word >> (rest >>= λ messages. some (start word ∷ messages))

-- The words that ask for a message.
abbrev pub words_of : List OeMsg → List Text
words_of [] = []
words_of (teleport name target ∷ messages) = teleport_word ∷ name ∷ target ∷ words_of messages
words_of (start name ∷ messages) = start_word ∷ name ∷ words_of messages

abbrev pub Fits : OeMsg → Type 0
Fits (teleport name target) = (length name < 50) × (length target < 50)
Fits (start name) = length name < 50

append_none : (later : Option (List OeMsg)) → later ≡ (later >>= λ l. some l)
append_none none = refl
append_none (some l) = refl

append_cons :
    (later : Option (List OeMsg)) (m : OeMsg) (messages : List OeMsg)
    → (later >>= (λ l. some (messages ++ l)) >>= (λ l. some (m ∷ l)))
      ≡ (later >>= λ l. some (m ∷ (messages ++ l)))
append_cons none m messages = refl
append_cons (some l) m messages = refl

-- What comes after the words of messages that fit.
run_commands-append :
    (messages : List OeMsg) (rest : List Text)
    → All Fits messages
    → run_commands cmd (words_of messages ++ rest)
      ≡ (run_commands cmd rest >>= λ later. some (messages ++ later))
unfolding run_commands
run_commands-append [] rest fits = append_none (run_commands cmd rest)
run_commands-append (teleport name target ∷ messages) rest fits =
    rw
      (
        lt→ltb (length name) 50 fits.0.0,
        lt→ltb (length target) 50 fits.0.1,
        run_commands-append messages rest fits.1,
      )
      (append_cons (run_commands cmd rest) (teleport name target) messages)
run_commands-append (start name ∷ messages) rest fits =
    rw (lt→ltb (length name) 50 fits.0, run_commands-append messages rest fits.1)
      (append_cons (run_commands cmd rest) (start name) messages)

run_commands-no_command :
    (word : Text) (rest : List Text)
    → same_text word teleport_word ≡ false
    → same_text word start_word ≡ false
    → length word < 50
    → run_commands cmd (word ∷ rest) ≡ some []
unfolding run_commands
run_commands-no_command word rest no_teleport no_start fits =
    rw (lt→ltb (length word) 50 fits, no_teleport, no_start) refl

run_commands-too_long :
    (word : Text) (rest : List Text) → 50 ≤ length word → run_commands cmd (word ∷ rest) ≡ none
unfolding run_commands
run_commands-too_long word rest long =
    let over : ltb (length word) 50 ≡ false = ground arith in rw over refl

-- The words of messages with names and targets of 49 letters at most, and then a word that is no
-- command, send exactly these messages. A longer word in the place of a command is a fault.
pub run_commands-words_of :
    (messages : List OeMsg) (word : Text) (rest : List Text)
    → All Fits messages
    → (same_text word teleport_word ≡ false
        → same_text word start_word ≡ false
        → length word < 50
        → run_commands cmd (words_of messages ++ word ∷ rest) ≡ some messages)
      × (50 ≤ length word → run_commands cmd (words_of messages ++ word ∷ rest) ≡ none)
run_commands-words_of messages word rest fits = (
  λ no_teleport no_start short.
      rw
        (
          run_commands-append messages (word ∷ rest) fits,
          run_commands-no_command word rest no_teleport no_start short,
        )
        (ap some (append-nil messages)),
  λ long.
      rw (run_commands-append messages (word ∷ rest) fits, run_commands-too_long word rest long)
        refl,
)
