-- ===== src/Defender/Containment.antt =====
-- Paths that stay in the workspace, and what the pipeline lets through.
use ai_agent_security_lab.Prelude.{
  ℕ, zero, suc, ◌+◌, ◌≤◌, ◌≡◌, refl, ◌↔◌, inl, inr, true, false, List, [], ◌∷◌, Text, text,
  starts_with, truthy, take, count_where, arith, if◌then◌else◌, Bool-cases,
}
use ai_agent_security_lab.Regex.Occurrence.{Occurs, found_iff}
use ai_agent_security_lab.Regex.{found}
use ai_agent_security_lab.Defender.Policy.{
  sensitive_path, is_up, is_down, falls_out, posix_parts, normalised, has_drive, escapes_workspace,
}

abbrev ups : ℕ → List Text → ℕ
ups n parts = count_where is_up (take n parts)

abbrev downs : ℕ → List Text → ℕ
downs n parts = count_where is_down (take n parts)

-- From a depth, no prefix of the parts goes up more often than it goes down.
abbrev pub StaysInside : ℕ → List Text → Type 0
StaysInside depth parts = (n : ℕ) → ups n parts ≤ depth + downs n parts

falls_out-StaysInside :
    (depth : ℕ) (parts : List Text) → falls_out depth parts ≡ false → StaysInside depth parts
unfolding falls_out
falls_out-StaysInside depth parts h zero = omega arith
falls_out-StaysInside depth [] h (suc n) = omega arith
falls_out-StaysInside zero (part ∷ parts) h (suc n) =
    let onward : falls_out 0 parts ≡ false → ups n parts ≤ 0 + downs n parts =
      λ g. falls_out-StaysInside 0 parts g n in
    let deeper : falls_out 1 parts ≡ false → ups n parts ≤ 1 + downs n parts =
      λ g. falls_out-StaysInside 1 parts g n in
    ground (arith, onward, deeper, h)
falls_out-StaysInside (suc depth) (part ∷ parts) h (suc n) =
    let up : falls_out depth parts ≡ false → ups n parts ≤ depth + downs n parts =
      λ g. falls_out-StaysInside depth parts g n in
    let onward : falls_out (suc depth) parts ≡ false → ups n parts ≤ suc depth + downs n parts =
      λ g. falls_out-StaysInside (suc depth) parts g n in
    let deeper : falls_out (suc (suc depth)) parts ≡ false
        → ups n parts ≤ suc (suc depth) + downs n parts =
      λ g. falls_out-StaysInside (suc (suc depth)) parts g n in
    ground (arith, up, onward, deeper, h)

-- A list that stays inside from one depth, after a part that changes the depth.
StaysInside-tail :
    (depth depth' : ℕ) (part : Text) (parts : List Text)
    → (depth + (if is_down part then 1 else 0) ≡ depth' + (if is_up part then 1 else 0))
    → StaysInside depth (part ∷ parts)
    → StaysInside depth' parts
StaysInside-tail depth depth' part parts e h n = omega (arith, e, h (suc n))

StaysInside-falls_out :
    (depth : ℕ) (parts : List Text) → StaysInside depth parts → falls_out depth parts ≡ false
unfolding falls_out
StaysInside-falls_out depth [] h = refl
StaysInside-falls_out zero (part ∷ parts) h = elim (Bool-cases (is_up part)) [
  | inl u ↦ absurd (ground (arith, u, h 1))
  | inr u ↦ elim (Bool-cases (is_down part)) [
    | inl d ↦ ground (
      arith,
      u,
      d,
      StaysInside-falls_out 1 parts (StaysInside-tail 0 1 part parts (ground (arith, u, d)) h),
    )
    | inr d ↦ ground (
      arith,
      u,
      d,
      StaysInside-falls_out 0 parts (StaysInside-tail 0 0 part parts (ground (arith, u, d)) h),
    )
  ]
]
StaysInside-falls_out (suc depth) (part ∷ parts) h = elim (Bool-cases (is_up part)) [
  | inl u ↦ ground (
    arith,
    u,
    StaysInside-falls_out depth parts
        (StaysInside-tail (suc depth) depth part parts (ground (arith, u)) h),
  )
  | inr u ↦ elim (Bool-cases (is_down part)) [
    | inl d ↦ ground (
      arith,
      u,
      d,
      StaysInside-falls_out (suc (suc depth)) parts
          (StaysInside-tail (suc depth) (suc (suc depth)) part parts (ground (arith, u, d)) h),
    )
    | inr d ↦ ground (
      arith,
      u,
      d,
      StaysInside-falls_out (suc depth) parts
          (StaysInside-tail (suc depth) (suc depth) part parts (ground (arith, u, d)) h),
    )
  ]
]

-- No sensitive target, no absolute path, and no prefix that leaves the working directory.
abbrev pub Contained : Text → Type 0
Contained path =
    (¬ Occurs sensitive_path path)
    × (starts_with (text "/") (normalised path) ≡ false)
    × (has_drive (normalised path) ≡ false)
    × StaysInside 0 (posix_parts (normalised path))

-- A path that is not empty passes the test exactly when it names no sensitive target, is not
-- absolute, and none of its prefixes goes up more often than down.
pub escapes_workspace_iff_Contained :
    (path : Text) → truthy path ≡ true → (escapes_workspace path ≡ false) ↔ Contained path
unfolding escapes_workspace
escapes_workspace_iff_Contained path visible =
    let parts = posix_parts (normalised path) in
    let (occurs, quiet) = found_iff sensitive_path path in
    (
      λ e. (
        λ o. ground (arith, quiet o, e, visible),
        ground (arith, e, visible),
        ground (arith, e, visible),
        falls_out-StaysInside 0 parts (ground (arith, e, visible)),
      ),
      λ (n, a, d, inside). elim (Bool-cases (found sensitive_path path)) [
        | inl f ↦ absurd (n (occurs f))
        | inr f ↦ ground (arith, f, a, d, StaysInside-falls_out 0 parts inside)
      ],
    )
