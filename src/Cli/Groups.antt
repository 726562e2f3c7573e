-- ===== src/Cli/Groups.antt =====
-- The groups of findings that are printed.
use husky_ci.Base.{
  ℕ, ◌+◌, ◌≡◌, arith, String, ◌==◌, Bool, true, false, List, [], ◌∷◌, ◌++◌, if◌then◌else◌,
  Bool-cases, inl, inr,
}
use husky_ci.Base.Lists.{All}
use husky_ci.Cli.Report.{
  CliVulnerability, Groups, is_high, is_medium, is_low, grouped, group_loop, group_vulns,
}

-- How many findings pass a test.
abbrev pub count_of : (CliVulnerability → Bool) → List CliVulnerability → ℕ
count_of test [] = 0
count_of test (v ∷ vs) = (if test v then 1 else 0) + count_of test vs

count-snoc :
    (test : CliVulnerability → Bool) (vs : List CliVulnerability) (v : CliVulnerability)
    → count_of test (vs ++ v ∷ []) ≡ count_of test vs + (if test v then 1 else 0)
count-snoc test [] v = omega arith
count-snoc test (w ∷ vs) v = omega (arith, count-snoc test vs v)

abbrev pub total : (CliVulnerability → Bool) → Groups → ℕ
total test g =
    count_of test g.high + count_of test g.medium + count_of test g.low + count_of test g.info

-- Whether a word is one of a list of words.
abbrev among : List String → String → Bool
among [] s = false
among (w ∷ ws) s = if s == w then true else among ws s

-- The severities of the findings of a group, and those of no finding of the last group.
abbrev pub IsSorted : Groups → Type 0
IsSorted g =
    All (λ (v : CliVulnerability). among ("HIGH" ∷ "high" ∷ "High" ∷ []) v.severity ≡ true) g.high
    × All (λ (v : CliVulnerability). among ("MEDIUM" ∷ "medium" ∷ "Medium" ∷ []) v.severity ≡ true)
        g.medium
    × All (λ (v : CliVulnerability). among ("LOW" ∷ "low" ∷ "Low" ∷ []) v.severity ≡ true) g.low
    × All
        (λ (v : CliVulnerability).
          among
            ("HIGH" ∷ "high" ∷ "High" ∷ "MEDIUM" ∷ "medium" ∷ "Medium" ∷ "LOW" ∷ "low" ∷ "Low" ∷ [])
            v.severity
          ≡ false)
        g.info

All-snoc :
    {A : Type 0} (P : A → Type 0) (xs : List A) (x : A) → All P xs → P x → All P (xs ++ x ∷ [])
All-snoc P [] x hs h = (h, tt)
All-snoc P (y ∷ xs) x (k, hs) h = (k, All-snoc P xs x hs h)

grouped-total :
    (test : CliVulnerability → Bool) (v : CliVulnerability) (g : Groups)
    → total test (grouped v g) ≡ total test g + (if test v then 1 else 0)
grouped-total test v g = elim (Bool-cases (is_high v.severity)) [
  | inl high ↦ rw high (omega (arith, count-snoc test g.high v))
  | inr not_high ↦ elim (Bool-cases (is_medium v.severity)) [
    | inl medium ↦ rw (not_high, medium) (omega (arith, count-snoc test g.medium v))
    | inr not_medium ↦ elim (Bool-cases (is_low v.severity)) [
      | inl low ↦ rw (not_high, not_medium, low) (omega (arith, count-snoc test g.low v))
      | inr other ↦ rw (not_high, not_medium, other) (omega (arith, count-snoc test g.info v))
    ]
  ]
]

grouped-IsSorted : (v : CliVulnerability) (g : Groups) → IsSorted g → IsSorted (grouped v g)
grouped-IsSorted v g (highs, mediums, lows, infos) = elim (Bool-cases (is_high v.severity)) [
  | inl high ↦ rw high (All-snoc _ g.high v highs (ground arith), mediums, lows, infos)
  | inr not_high ↦ elim (Bool-cases (is_medium v.severity)) [
    | inl medium ↦
        rw (not_high, medium) (highs, All-snoc _ g.medium v mediums (ground arith), lows, infos)
    | inr not_medium ↦ elim (Bool-cases (is_low v.severity)) [
      | inl low ↦
          rw (not_high, not_medium, low)
            (highs, mediums, All-snoc _ g.low v lows (ground arith), infos)
      | inr other ↦
          rw (not_high, not_medium, other)
            (highs, mediums, lows, All-snoc _ g.info v infos (ground arith))
    ]
  ]
]

group_loop-total :
    (test : CliVulnerability → Bool) (g : Groups) (vs : List CliVulnerability)
    → total test (group_loop g vs) ≡ total test g + count_of test vs
unfolding group_loop
group_loop-total test g [] = omega arith
group_loop-total test g (v ∷ vs) =
    omega (arith, group_loop-total test (grouped v g) vs, grouped-total test v g)

group_loop-IsSorted :
    (g : Groups) (vs : List CliVulnerability) → IsSorted g → IsSorted (group_loop g vs)
unfolding group_loop
group_loop-IsSorted g [] h = h
group_loop-IsSorted g (v ∷ vs) h = group_loop-IsSorted (grouped v g) vs (grouped-IsSorted v g h)

-- The four groups into which `PrintVulns` sorts the findings before it prints them: of the findings
-- that pass a test, whatever it is, there are as many in the groups together as in the list. The
-- first group holds findings of the severity HIGH, high or High only, the second of MEDIUM, medium
-- or Medium, the third of LOW, low or Low, and the last one holds findings of none of these nine.
pub group_vulns_lem :
    (test : CliVulnerability → Bool) (vs : List CliVulnerability)
    → (total test (group_vulns vs) ≡ count_of test vs) × IsSorted (group_vulns vs)
unfolding group_vulns
group_vulns_lem test vs =
    let empty : Groups = record { high = []; medium = []; low = []; info = [] } in
    (omega (arith, group_loop-total test empty vs), group_loop-IsSorted empty vs (tt, tt, tt, tt))
