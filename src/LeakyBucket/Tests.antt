-- ===== src/LeakyBucket/Tests.antt =====
-- The theorem on the leaky bucket at a concrete run.
use tvpp_dev_base.Base.{◌+◌, ◌≤◌, List, [], ◌∷◌, arith}
use tvpp_dev_base.LeakyBucket.{LeakyBucket}
use tvpp_dev_base.LeakyBucket.Rate.{IsValid, Call, incs, decs, run, replaced, run-bound}

abbrev bucket : LeakyBucket
bucket = record { bucket_size = 10; tokens = 4 }

abbrev calls : List Call
calls = decs 3 ∷ decs 5 ∷ incs 20 ∷ decs 5 ∷ []

run-bound_example :
    ((run calls bucket).0 + (run calls bucket).1.tokens ≤ bucket.tokens + replaced calls)
    × IsValid (run calls bucket).1
run-bound_example = run-bound calls bucket (record { within = omega arith; size_u32 = omega arith })
