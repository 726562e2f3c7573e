-- ===== src/Docker/Attempts.antt =====
-- How often `pullImage` tries, and what its errors mean.
use husky_ci.Base.{
  ℕ, zero, suc, ◌+◌, ◌≤◌, ◌<◌, ◌≡◌, inl, inr, refl, arith, String, Bool, true, false, ◌||◌, Option,
  none, some, List, [], ◌∷◌, length, leb, Bool-cases, is_some,
}
use husky_ci.Docker.Pull.{
  Names, Round, timed_out, tick, Pulled, returned, pull_image, is_platform_error, no_platform,
  gave_up, not_there,
}

-- In one of the first rounds `ImageIsLoaded` has said that the image is there.
abbrev pub seen_loaded : ℕ → List Round → Bool
seen_loaded zero rounds = false
seen_loaded (suc k) [] = false
seen_loaded (suc k) (timed_out ∷ rounds) = seen_loaded k rounds
seen_loaded (suc k) (tick before pulled after ∷ rounds) = before || (after || seen_loaded k rounds)

-- The loop has returned in its first `k` rounds, of which there are at most three less those
-- before, after as many pulls at most; there is an error, or the image was seen in these rounds.
abbrev pub Ends : (before : ℕ) → List Round → Pulled → Type 0
Ends before rounds w =
    (k : ℕ) × (calls : ℕ) × (err : Option String) × (w ≡ returned calls err)
    × (k + before ≤ 3)
    × (calls ≤ k + before)
    × ((is_some err || seen_loaded k rounds) ≡ true)

either_seen :
    (err before after seen : Bool)
    → (err || seen) ≡ true
    → (err || (before || (after || seen))) ≡ true
either_seen err before after seen h = ground arith

Ends-later :
    (calls : ℕ) (before after : Bool) (pulled : Option String) (rounds : List Round) (w : Pulled)
    → Ends (suc calls) rounds w
    → Ends calls (tick before pulled after ∷ rounds) w
Ends-later calls before after pulled rounds w (k, made, err, e, few, fewer, seen) = (
  suc k,
  made,
  err,
  e,
  omega arith,
  omega arith,
  either_seen (is_some err) before after (seen_loaded k rounds) seen,
)

pull_image-Ends :
    (n : Names) (image : String) (calls : ℕ) (rounds : List Round)
    → calls < 3
    → 3 ≤ calls + length rounds
    → Ends calls rounds (pull_image n image calls rounds)
unfolding pull_image
pull_image-Ends n image calls [] few enough = absurd (omega arith)
pull_image-Ends n image calls (timed_out ∷ rounds) few enough =
    (1, calls, some "timeout after 15 minutes", refl, omega arith, omega arith, refl)
pull_image-Ends n image calls (tick true pulled after ∷ rounds) few enough =
    (1, calls, none, refl, omega arith, omega arith, refl)
pull_image-Ends n image calls (tick false none true ∷ rounds) few enough =
    (1, suc calls, none, refl, omega arith, omega arith, refl)
pull_image-Ends n image calls (tick false none false ∷ rounds) few enough =
    elim (Bool-cases (leb 3 (suc calls))) [
      | inl last ↦
          (1, suc calls, some (not_there image), rw last refl, omega arith, omega arith, refl)
      | inr more ↦ rw more (
          Ends-later calls false false none rounds (pull_image n image (suc calls) rounds)
            (pull_image-Ends n image (suc calls) rounds (ground arith) (omega arith)))
    ]
pull_image-Ends n image calls (tick false (some err) after ∷ rounds) few enough =
    elim (Bool-cases (is_platform_error n err)) [
      | inl platform ↦ (
        1,
        suc calls,
        some (no_platform image err),
        rw platform refl,
        omega arith,
        omega arith,
        refl,
      )
      | inr other ↦ elim (Bool-cases (leb 3 (suc calls))) [
        | inl last ↦ (
          1,
          suc calls,
          some (gave_up image err),
          rw (other, last) refl,
          omega arith,
          omega arith,
          refl,
        )
        | inr more ↦
            rw (other, more)
              (Ends-later calls false after (some err) rounds
                (pull_image n image (suc calls) rounds)
                (pull_image-Ends n image (suc calls) rounds (ground arith) (omega arith)))
      ]
    ]

-- `pullImage` returns within its first three rounds, whatever the registry and the daemon answer.
-- It has then called `PullImage` at most once in each of the rounds that it took, and it returns
-- an error unless `ImageIsLoaded` has said in one of them that the image is there.
pub pull_image_returns :
    (n : Names) (image : String) (rounds : List Round)
    → 3 ≤ length rounds
    → Ends 0 rounds (pull_image n image 0 rounds)
pull_image_returns n image rounds enough =
    pull_image-Ends n image 0 rounds (omega arith) (omega arith)
