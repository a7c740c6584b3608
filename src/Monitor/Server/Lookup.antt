-- ===== src/Monitor/Server/Lookup.antt =====
-- What `find_host` finds.
use hpv_c.Base.{
  str_equal, Text, same_text_self, ℕ, suc, ◌+◌, ◌≡◌, refl, inl, inr, true, Bool-cases, Option, none,
  some, List, [], ◌∷◌, ◌++◌, arith, length, get_elem?, >>=-eq-some,
}
use hpv_c.Monitor.Server.{HostMetric, find_host}

module _ {D : Type 0} where
  -- The first host whose IP is the text.
  pub find_host_found :
      (i : ℕ) (hosts : List (HostMetric D)) (ip : Option Text) (k : ℕ)
      → find_host i hosts ip ≡ some (some k)
      → (j : ℕ) × (host : HostMetric D) × (k ≡ i + j)
        × (get_elem? hosts j ≡ some host)
        × (str_equal host.ip ip ≡ some true)
  unfolding find_host
  find_host_found i [] ip k h = cc
  find_host_found i (host ∷ hosts) ip k h =
      let (is_it, e, rest) = >>=-eq-some (str_equal host.ip ip) _ h in
      elim (Bool-cases is_it) [
        | inl it ↦ let here : i ≡ k = cc (rw it at rest) in (0, host, omega arith, refl, rw it at e)
        | inr other ↦
            let (j, host', at, got, same) = find_host_found (i + 1) hosts ip k (rw other at rest) in
            (suc j, host', omega arith, got, same)
      ]

  -- A host behind hosts of other IPs.
  pub find_host-append :
      (i : ℕ) (hosts : List (HostMetric D)) (host : HostMetric D) (t : Text)
      → find_host i hosts (some t) ≡ some none
      → host.ip ≡ some t
      → find_host i (hosts ++ host ∷ []) (some t) ≡ some (some (i + length hosts))
  unfolding find_host
  find_host-append i [] host t h e =
      let here : i + 0 ≡ i = omega arith in rw (e, same_text_self t, here) refl
  find_host-append i (first ∷ hosts) host t h e =
      let (is_it, known, rest) = >>=-eq-some (str_equal first.ip (some t)) _ h in
      elim (Bool-cases is_it) [
        | inl it ↦ cc (rw it at rest)
        | inr other ↦
            let next : i + suc (length hosts) ≡ i + 1 + length hosts = omega arith in
            rw (known, other, next) (find_host-append (i + 1) hosts host t (rw other at rest) e)
      ]

  -- A lookup that finds a host finds it in a longer list.
  pub find_host-longer :
      (i : ℕ) (hosts : List (HostMetric D)) (host : HostMetric D) (ip : Option Text) (k : ℕ)
      → find_host i hosts ip ≡ some (some k)
      → find_host i (hosts ++ host ∷ []) ip ≡ some (some k)
  unfolding find_host
  find_host-longer i [] host ip k h = cc
  find_host-longer i (first ∷ hosts) host ip k h =
      let (is_it, known, rest) = >>=-eq-some (str_equal first.ip ip) _ h in
      elim (Bool-cases is_it) [
        | inl it ↦ rw (known, it) (rw it at rest)
        | inr other ↦
            rw (known, other) (find_host-longer (i + 1) hosts host ip k (rw other at rest))
      ]
