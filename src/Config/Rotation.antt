-- ===== src/Config/Rotation.antt =====
-- The host that `FormatDockerHostAddress` of api/util/api/api.go chooses for a counter.
use native.Mathlib.Nat.{mod-add-mod, mod-eq_of_lt, add-mod_right, mod-lt}
use husky_ci.Base.{
  ℕ, zero, suc, ◌+◌, ◌-◌, ◌%◌, ◌<◌, ◌≡◌, inl, inr, refl, sym, ap, ◌∙◌, arith, ℤ, pos, String, ◌==◌,
  true, false, Option, none, some, List, [], ◌∷◌, trim_space, length, get_elem?, is_empty, leb,
  Bool-cases, is_some, if-elim,
}
use husky_ci.Base.Reply.{Reply, found}
use husky_ci.Types.{DockerAddresses}
use husky_ci.Config.Env.{DockerHostsConfig}
use husky_ci.Config.Hosts.{
  Net, format_docker_host, format_docker_host_address, configured, is_tcp, pick, picked, from_list,
}

-- From any index each remainder is reached within one turn.
turn : (n len i : ℕ) → i < len → (j : ℕ) × (j < len) × ((n + j) % len ≡ i)
turn n len i h = elim (Bool-cases (leb (n % len) i)) [
  | inl before ↦ (
    i - n % len,
    ground arith,
    sym (mod-add-mod n len (i - n % len)) ∙ ap (λ (k : ℕ). k % len) (same before) ∙ mod-eq_of_lt h,
  )
  | inr after ↦ (
    i + len - n % len,
    ground arith,
    sym (mod-add-mod n len (i + len - n % len))
        ∙ ap (λ (k : ℕ). k % len) (wrapped after)
        ∙ add-mod_right i len
        ∙ mod-eq_of_lt h,
  )
]
  where
    same : leb (n % len) i ≡ true → n % len + (i - n % len) ≡ i
    same e = ground arith

    wrapped : leb (n % len) i ≡ false → n % len + (i + len - n % len) ≡ i + len
    wrapped e = ground (arith, mod-lt n {m = len} (omega arith))

get_elem?-lt : {A : Type 0} (xs : List A) (i : ℕ) {x : A} → get_elem? xs i ≡ some x → i < length xs
get_elem?-lt [] i e = cc
get_elem?-lt (x ∷ xs) zero e = omega arith
get_elem?-lt (x ∷ xs) (suc i) e = omega (arith, get_elem?-lt xs i e)

get_elem?-some :
    {A : Type 0} (xs : List A) (i : ℕ) → i < length xs → is_some (get_elem? xs i) ≡ true
get_elem?-some [] i h = absurd (omega arith)
get_elem?-some (x ∷ xs) zero h = refl
get_elem?-some (x ∷ xs) (suc i) h = get_elem?-some xs i (omega arith)

not_empty :
    {A : Type 0} (xs : List A) (i : ℕ) {x : A} → get_elem? xs i ≡ some x → is_empty xs ≡ false
not_empty [] i e = cc
not_empty (x ∷ xs) i e = refl

-- The addresses of the database with the hosts and a counter that has come to `k`.
abbrev pub at_index : ℕ → List String → DockerAddresses
at_index k hosts = record { current_host_index = pos k; host_list = hosts }

module _ (n : Net) (config : Option DockerHostsConfig) where
  picked-some : (port : ℤ) (o : Option String) → is_some o ≡ true → is_some (picked n port o) ≡ true
  picked-some port none h = cc
  picked-some port (some host) h = refl

  from_list-some :
      (port : ℤ) (k : ℕ) (hosts : List String)
      → is_some (from_list n port (at_index k hosts)) ≡ true
  unfolding pick
  from_list-some port k [] = refl
  from_list-some port k (h ∷ hosts) =
      picked-some port (pick (pos k) (h ∷ hosts))
        (get_elem?-some (h ∷ hosts) (k % length (h ∷ hosts)) (mod-lt k (omega arith)))

  -- For every counter that is not negative and every list of hosts, `FormatDockerHostAddress`
  -- indexes the list within its bounds: it returns an address or an error.
  pub address_in_bounds :
      (k : ℕ) (hosts : List String)
      → is_some (format_docker_host_address n (at_index k hosts) config) ≡ true
  unfolding format_docker_host_address
  address_in_bounds k hosts =
      if-elim (λ (r : Option (Reply String)). is_some r ≡ true) (is_tcp (configured n config).0)
        (some (found (format_docker_host n (configured n config).0 (configured n config).1)))
        (from_list n (configured n config).1 (at_index k hosts)) (λ tcp. refl)
        (λ path. from_list-some (configured n config).1 k hosts)

  -- The hosts of the database take turns: where no TCP host is configured, each host of the list
  -- that is not blank is chosen within as many requests as there are hosts, whatever the counter
  -- has come to.
  pub hosts_take_turns :
      (start i : ℕ) (hosts : List String) (host : String)
      → is_tcp (configured n config).0 ≡ false
      → get_elem? hosts i ≡ some host
      → (trim_space host == "") ≡ false
      → (j : ℕ) × (j < length hosts)
        × (format_docker_host_address n (at_index (start + j) hosts) config
            ≡ some (found (format_docker_host n (trim_space host) (configured n config).1)))
  unfolding format_docker_host_address pick
  hosts_take_turns start i hosts host path there filled =
      let (j, few, e) = turn start (length hosts) i (get_elem?-lt hosts i there) in
      (j, few, rw path (rw (not_empty hosts i there) (rw e (rw there (rw filled refl)))))
