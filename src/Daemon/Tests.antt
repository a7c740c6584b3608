-- ===== src/Daemon/Tests.antt =====
-- A session at the daemon.
use hpv_c.Base.{ℕ, ◌≡◌, ◌≤◌, refl, none, some, List, [], ◌∷◌, ◌++◌, arith, length}
use hpv_c.Daemon.{OeMsg, teleport, start, cmd, run_commands, words_of, run_commands-words_of}

abbrev session : List OeMsg
session = start (1 ∷ []) ∷ teleport (1 ∷ []) (2 ∷ 3 ∷ []) ∷ []

run_commands-words_of_example :
    (run_commands cmd (words_of session ++ (7 ∷ []) ∷ []) ≡ some session)
    × (50 ≤ length {A = ℕ} (7 ∷ []) → run_commands cmd (words_of session ++ (7 ∷ []) ∷ []) ≡ none)
run_commands-words_of_example =
    let both = run_commands-words_of session (7 ∷ []) [] (omega arith) in
    (both.0 refl refl (omega arith), both.1)

-- Half a command at the end of the input.
cut_short :
    run_commands cmd (words_of (start (1 ∷ []) ∷ []) ++ words_of (start [] ∷ []))
    ≡ some (start (1 ∷ []) ∷ start [] ∷ [])
unfolding run_commands
cut_short = refl
