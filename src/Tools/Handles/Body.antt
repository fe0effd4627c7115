-- ===== src/Tools/Handles/Body.antt =====
-- What `_http_capped` of src/vpsmcp/tools/ops.py keeps of a body.
use mathlib.Core.List.{append-nil, append_assoc}
use letkite_lite.Prelude.{
  ℕ, zero, suc, ◌-◌, ◌<◌, Bool, true, false, ◌≡◌, refl, sym, ap, ◌∙◌, List, [], ◌∷◌, ◌++◌, length,
  take, ltb, length-append, if◌then◌else◌, arith,
}
use letkite_lite.Ssh.Drain.{Sink, drain_chunk, nothing, Cut, drain_chunk-Cut, take-append}
use letkite_lite.Tools.Handles.Forwarding.{http_body}

-- All bytes of a body.
abbrev pub whole : List (List ℕ) → List ℕ
whole [] = []
whole (chunk ∷ chunks) = chunk ++ whole chunks

take_enough : (n : ℕ) (xs ys : List ℕ) → n < length xs → take n (xs ++ ys) ≡ take n xs
take_enough n xs ys lt =
    take-append n xs ys ∙ ap (λ k. take n xs ++ take k ys) none_left ∙ append-nil (take n xs)
  where
    none_left : n - length xs ≡ 0
    none_left = omega arith

-- What was cut already stays as it is, whatever comes after.
Cut-append :
    (cap : ℕ) (seen more : List ℕ) (sink : Sink)
    → sink.truncated ≡ true
    → Cut cap seen sink
    → Cut cap (seen ++ more) sink
Cut-append cap seen more sink cut (kept, flag) =
    let longer : ltb cap (length seen) ≡ true = sym flag ∙ cut in
    let over : cap < length seen = ground (arith, longer) in
    (
      kept ∙ sym (take_enough cap seen more over),
      cut ∙ ground (arith, over, length-append seen more),
    )

Cut-either :
    (cap : ℕ) (seen : List ℕ) (sink rest : Sink) (b : Bool)
    → (b ≡ true → Cut cap seen sink)
    → (b ≡ false → Cut cap seen rest)
    → Cut cap seen (if b then sink else rest)
Cut-either cap seen sink rest true f g = f refl
Cut-either cap seen sink rest false f g = g refl

http_body-Cut :
    (cap : ℕ) (seen : List ℕ) (chunks : List (List ℕ)) (sink : Sink)
    → Cut cap seen sink
    → Cut cap (seen ++ whole chunks) (http_body cap chunks sink)
unfolding http_body
http_body-Cut cap seen [] sink h = rw (append-nil seen) h
http_body-Cut cap seen (chunk ∷ chunks) sink h =
    let more = drain_chunk cap chunk sink in
    let here = drain_chunk-Cut cap seen chunk sink h in
    let rest = http_body-Cut cap (seen ++ chunk) chunks more here in
    rw (← append_assoc seen chunk (whole chunks)) (
      Cut-either cap ((seen ++ chunk) ++ whole chunks) more (http_body cap chunks more)
        more.truncated (λ cut. Cut-append cap (seen ++ chunk) (whole chunks) more cut here)
        (λ going. rest))

-- The body that is kept is the first `cap` bytes of the whole, and the flag is set exactly if there was more, though the
-- reading stops with the chunk that passes the cap.
pub http_body_lem :
    (cap : ℕ) (chunks : List (List ℕ))
    → ((http_body cap chunks nothing).kept ≡ take cap (whole chunks))
      × ((http_body cap chunks nothing).truncated ≡ ltb cap (length (whole chunks)))
http_body_lem cap chunks = http_body-Cut cap [] chunks nothing (take_nil cap, ground arith)
  where
    take_nil : (n : ℕ) → ◌≡◌ {A = List ℕ} [] (take n [])
    take_nil zero = refl
    take_nil (suc n) = refl
