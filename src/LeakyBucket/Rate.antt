-- ===== src/LeakyBucket/Rate.antt =====
-- The rate that src/client/Temporizable/LeakyBucket.cpp grants, over any interleaving of the timer and
-- the senders.
use tvpp_dev_base.Base.{
  ℕ, ◌+◌, ◌-◌, ◌^◌, ◌≤◌, ◌<◌, leb, leb→le, if◌then◌else◌, List, [], ◌∷◌, arith, Bool-cases, inl,
  inr,
}
use tvpp_dev_base.LeakyBucket.{LeakyBucket, inc_token, dec_token}

-- A bucket that the program can hold.
pub record IsValid (b : LeakyBucket) : Type 0 where
  pub within : b.tokens ≤ b.bucket_size
  pub size_u32 : b.bucket_size < 2 ^ 32

-- A call by the timer or by a sender.
pub data Call : Type 0 where
  incs : ℕ → Call
  decs : ℕ → Call

-- The calls in the order in which they take the mutex: the tokens that were granted, and the bucket.
abbrev pub run : List Call → LeakyBucket → ℕ × LeakyBucket
run [] b = (0, b)
run (incs n ∷ cs) b = run cs (inc_token b n)
run (decs n ∷ cs) b =
    let (granted, b') = dec_token b n in
    let rest = run cs b' in ((if granted then n else 0) + rest.0, rest.1)

-- The tokens that the timer adds.
abbrev pub replaced : List Call → ℕ
replaced [] = 0
replaced (incs n ∷ cs) = n + replaced cs
replaced (decs n ∷ cs) = replaced cs

inc_token-IsValid : (b : LeakyBucket) (n : ℕ) → IsValid b → IsValid (inc_token b n)
unfolding inc_token
inc_token-IsValid b n v = ground arith

inc_token-le : (b : LeakyBucket) (n : ℕ) → (inc_token b n).tokens ≤ b.tokens + n
unfolding inc_token
inc_token-le b n = ground arith

-- Over any sequence of calls the tokens granted and those left are at most those that the bucket had
-- and those that the timer added, and the bucket never holds more than its size.
pub run-bound :
    (cs : List Call) (b : LeakyBucket)
    → IsValid b
    → ((run cs b).0 + (run cs b).1.tokens ≤ b.tokens + replaced cs) × IsValid (run cs b).1
unfolding dec_token
run-bound [] b v = (omega arith, v)
run-bound (incs n ∷ cs) b v =
    let rest = run-bound cs (inc_token b n) (inc_token-IsValid b n v) in
    (omega (arith, rest.0, inc_token-le b n), rest.1)
run-bound (decs n ∷ cs) b v = elim (Bool-cases (leb n b.tokens)) [
  | inl h ↦
      let rest = run-bound cs (record b { tokens = b.tokens - n }) (ground arith) in
      rw h (omega (arith, rest.0, leb→le n b.tokens h), rest.1)
  | inr h ↦ let rest = run-bound cs b v in rw h (omega (arith, rest.0), rest.1)
]
