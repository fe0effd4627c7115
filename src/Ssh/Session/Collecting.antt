-- ===== src/Ssh/Session/Collecting.antt =====
-- What the reading loop of `ShellSession.run` of src/vpsmcp/ssh/session.py keeps.
use letkite_lite.Prelude.{
  ℕ, ◌+◌, ◌-◌, ◌*◌, ◌≤◌, Bool, true, false, ◌||◌, ◌≡◌, sym, List, [], ◌∷◌, ◌++◌, length,
  length-append, length-drop, ltb, arith, Bool-cases, inl, inr,
}
use letkite_lite.Ssh.Session.{Read, expired, waited, got, found, trim, contains, collect}

-- What is kept between two reads is at most four times the limit.
pub length-trim : (max_bytes : ℕ) (buf : List ℕ) → length (trim max_bytes buf) ≤ max_bytes * 4
unfolding trim
length-trim max_bytes buf = elim (Bool-cases (ltb (max_bytes * 4) (length buf))) [
  | inl long ↦ ground (arith, long, length-drop (length buf - max_bytes * 2) buf)
  | inr short ↦ ground (arith, short)
]

-- Every chunk is at most `chunk` bytes long.
abbrev pub Bounded : ℕ → List Read → Type 0
Bounded chunk [] = Unit {0}
Bounded chunk (got bs ∷ reads) = (length bs ≤ chunk) × Bounded chunk reads
Bounded chunk (expired ∷ reads) = Bounded chunk reads
Bounded chunk (waited ∷ reads) = Bounded chunk reads

found-injective : {a b : List ℕ} {s t : Bool} → found a s ≡ found b t → a ≡ b
found-injective h = cc

collect-from :
    (needle : List ℕ) (max_bytes chunk : ℕ) (buf out : List ℕ) (cut flag : Bool) (reads : List Read)
    → length buf ≤ max_bytes * 4
    → Bounded chunk reads
    → collect needle max_bytes buf cut reads ≡ found out flag
    → (contains needle out ≡ true) × (length out ≤ max_bytes * 4 + chunk)
unfolding collect
collect-from needle max_bytes chunk buf out cut flag [] short small h = ground arith
collect-from needle max_bytes chunk buf out cut flag (expired ∷ reads) short small h = ground arith
collect-from needle max_bytes chunk buf out cut flag (waited ∷ reads) short small h =
    collect-from needle max_bytes chunk buf out cut flag reads short small h
collect-from needle max_bytes chunk buf out cut flag (got [] ∷ reads) short small h = ground arith
collect-from needle max_bytes chunk buf out cut flag (got (b ∷ bs) ∷ reads) short small h =
    elim (Bool-cases (contains needle (buf ++ b ∷ bs))) [
      | inl hit ↦
          let same : buf ++ b ∷ bs ≡ out = found-injective (rw hit at h) in
          rw (sym same) (hit, omega (arith, length-append buf (b ∷ bs), short, small.0))
      | inr miss ↦
          collect-from needle max_bytes chunk (trim max_bytes (buf ++ b ∷ bs)) out
            (cut || ltb (max_bytes * 4) (length (buf ++ b ∷ bs))) flag reads
            (length-trim max_bytes (buf ++ b ∷ bs)) small.1 (rw miss at h)
    ]

-- What the loop returns has the marker in it, and is no longer than four times the limit and one chunk.
pub collect-found :
    (needle : List ℕ) (max_bytes chunk : ℕ) (out : List ℕ) (flag : Bool) (reads : List Read)
    → Bounded chunk reads
    → collect needle max_bytes [] false reads ≡ found out flag
    → (contains needle out ≡ true) × (length out ≤ max_bytes * 4 + chunk)
collect-found needle max_bytes chunk out flag reads small h =
    collect-from needle max_bytes chunk [] out false flag reads (omega arith) small h
