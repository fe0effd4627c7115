-- ===== src/Ssh/Drain.antt =====
-- `_drain` of src/vpsmcp/ssh/runner.py, and the capped reads of src/vpsmcp/tools. A stream is the
-- list of the chunks that its reads return; an empty chunk, or the end of the list, is its end.
use mathlib.Core.List.{append-nil, append_assoc}
use native.Mathlib.Nat.{sub-zero, suc-sub-suc}
use letkite_lite.Prelude.{
  ℕ, zero, suc, ◌-◌, ◌≤◌, Bool, false, ◌||◌, ◌≡◌, refl, ap, List, [], ◌∷◌, ◌++◌, arith, length,
  take, length-append, length-take, ltb, if◌then◌else◌,
}

-- What has been kept, and whether something was cut.
pub record Sink : Type 0 where
  pub kept : List ℕ
  pub truncated : Bool

-- One chunk: `room` may be 0 or less, and then the whole chunk is cut.
unfoldable pub drain_chunk : ℕ → List ℕ → Sink → Sink
drain_chunk limit chunk sink =
    let room = limit - length sink.kept in
    record {
      kept = if ltb 0 room then sink.kept ++ take room chunk else sink.kept;
      truncated = sink.truncated || ltb room (length chunk);
    }

unfoldable pub drain : ℕ → List (List ℕ) → Sink → Sink
unfolding drain_chunk
drain limit [] sink = sink
drain limit ([] ∷ chunks) sink = sink
drain limit ((b ∷ bs) ∷ chunks) sink = drain limit chunks (drain_chunk limit (b ∷ bs) sink)

-- All bytes up to the end of the stream.
unfoldable pub contents : List (List ℕ) → List ℕ
contents [] = []
contents ([] ∷ chunks) = []
contents ((b ∷ bs) ∷ chunks) = (b ∷ bs) ++ contents chunks

abbrev pub nothing : Sink
nothing = record { kept = []; truncated = false }

pub take-append :
    (n : ℕ) (xs ys : List ℕ) → take n (xs ++ ys) ≡ take n xs ++ take (n - length xs) ys
take-append zero xs ys = from_less (0 - length xs) (omega arith)
  where
    from_less : (k : ℕ) → k ≡ 0 → [] ≡ take k ys
    from_less k e = rw e refl
take-append (suc n) [] ys = rw sub-zero refl
take-append (suc n) (x ∷ xs) ys = rw (suc-sub-suc, take-append n xs ys) refl

take_all : (n : ℕ) (xs : List ℕ) → length xs ≤ n → take n xs ≡ xs
take_all zero [] h = refl
take_all zero (x ∷ xs) h = absurd (omega arith)
take_all (suc n) [] h = refl
take_all (suc n) (x ∷ xs) h = ap (◌∷◌ x) (take_all n xs (omega arith))

take_none : (n : ℕ) (xs : List ℕ) → n ≡ 0 → take n xs ≡ []
take_none n xs h = rw h refl

-- What has been seen, cut to the limit.
abbrev pub Cut : ℕ → List ℕ → Sink → Type 0
Cut limit seen sink = (sink.kept ≡ take limit seen) × (sink.truncated ≡ ltb limit (length seen))

pub drain_chunk-Cut :
    (limit : ℕ) (seen chunk : List ℕ) (sink : Sink)
    → Cut limit seen sink
    → Cut limit (seen ++ chunk) (drain_chunk limit chunk sink)
unfolding drain_chunk
drain_chunk-Cut limit seen chunk sink h = ground (
  arith,
  take-append limit seen chunk,
  length-take limit seen,
  length-append seen chunk,
  take_none (limit - length seen) chunk,
  append-nil (take limit seen),
  ap length h.0,
)

drain-Cut :
    (limit : ℕ) (seen : List ℕ) (chunks : List (List ℕ)) (sink : Sink)
    → Cut limit seen sink
    → Cut limit (seen ++ contents chunks) (drain limit chunks sink)
unfolding drain contents
drain-Cut limit seen [] sink h = rw (append-nil seen) h
drain-Cut limit seen ([] ∷ chunks) sink h = rw (append-nil seen) h
drain-Cut limit seen ((b ∷ bs) ∷ chunks) sink h =
    rw (← append_assoc seen (b ∷ bs) (contents chunks)) (
      drain-Cut limit (seen ++ b ∷ bs) chunks (drain_chunk limit (b ∷ bs) sink)
        (drain_chunk-Cut limit seen (b ∷ bs) sink h))

-- The output that is kept is the first `limit` bytes of all that the stream carried, and the flag is
-- set exactly if there was more.
pub drain-nothing :
    (limit : ℕ) (chunks : List (List ℕ))
    → ((drain limit chunks nothing).kept ≡ take limit (contents chunks))
      × ((drain limit chunks nothing).truncated ≡ ltb limit (length (contents chunks)))
drain-nothing limit chunks = drain-Cut limit [] chunks nothing (take_nil limit, ground arith)
  where
    take_nil : (n : ℕ) → ◌≡◌ {A = List ℕ} [] (take n [])
    take_nil zero = refl
    take_nil (suc n) = refl
