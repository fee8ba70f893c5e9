-- ===== src/Keyboard/Ring.antt =====
-- The ring buffer as a queue of characters.
use frostbite.Base.{
  eqb→eq, eqb_refl, length-append, Bool-cases, eqb_of_ne, ℕ, zero, suc, ◌+◌, ◌%◌, ◌<◌, ◌≡◌, refl,
  ap, ◌∙◌, ◌≢◌, inl, inr, false, List, [], ◌∷◌, ◌++◌, arith, ◌==◌, if◌then◌else◌, length,
}
use frostbite.Keyboard.{KeyBuffer, write_key_buffer, read_key_buffer, must_sleep}

-- `n` characters from position `i` on, around the ring.
unfoldable pub contents_from : (ℕ → ℕ) → ℕ → ℕ → List ℕ
contents_from buf i zero = []
contents_from buf i (suc n) = buf i ∷ contents_from buf ((i + 1) % 500) n

-- The buffer holds these characters, the oldest first.
pub record Holds (b : KeyBuffer) (cs : List ℕ) : Type 0 where
  pub front_ok : b.front < 500
  pub room : length cs < 500
  pub end_at : b.end ≡ (b.front + length cs) % 500
  pub chars : contents_from b.buf b.front (length cs) ≡ cs

apart :
    (front end n : ℕ)
    → front < 500
    → suc n < 500
    → end ≡ (front + suc n) % 500
    → (front == end) ≡ false
apart front end n low few e = let ne : front ≢ end = λ same. omega arith in eqb_of_ne front end ne

around : (i n : ℕ) → (i + suc n) % 500 ≡ ((i + 1) % 500 + n) % 500
around i n = omega arith

-- Reading gives the oldest character and takes it off; a buffer that holds one never makes the reader
-- sleep.
pub read_key_buffer-Holds :
    (b : KeyBuffer) (c : ℕ) (cs : List ℕ)
    → Holds b (c ∷ cs)
    → (must_sleep b ≡ false) × ((read_key_buffer b).0 ≡ c) × Holds (read_key_buffer b).1 cs
unfolding must_sleep read_key_buffer contents_from
read_key_buffer-Holds b c cs h =
    let all = h.chars in
    let at_end = h.end_at in
    let few = h.room in
    let low = h.front_ok in
    (
      apart b.front b.end (length cs) low few at_end,
      (let e = all in cc),
      record {
        front_ok = omega arith;
        room = omega arith;
        end_at = at_end ∙ around b.front (length cs);
        chars = cc;
      },
    )

frame :
    (buf : ℕ → ℕ) (e ch i n : ℕ)
    → i < 500
    → e < 500
    → ((m : ℕ) → m < n → (i + m) % 500 ≢ e)
    → contents_from (λ j. if j == e then ch else buf j) i n ≡ contents_from buf i n
unfolding contents_from
frame buf e ch i zero lt le out = refl
frame buf e ch i (suc n) lt le out =
    let here : (i == e) ≡ false = eqb_of_ne i e (λ same. out 0 (omega arith) (omega arith)) in
    let rest =
      frame buf e ch ((i + 1) % 500) n (omega arith) le
        (λ m lt' same. out (suc m) (omega arith) (around i m ∙ same)) in
    rw (here, rest)

append_one :
    (buf : ℕ → ℕ) (i n : ℕ)
    → i < 500
    → contents_from buf i (suc n) ≡ contents_from buf i n ++ (buf ((i + n) % 500) ∷ [])
unfolding contents_from
append_one buf i zero low = let same : (i + 0) % 500 ≡ i = omega arith in rw same
append_one buf i (suc n) low =
    rw (around i n) (ap (λ t. buf i ∷ t) (append_one buf ((i + 1) % 500) n (omega arith)))

next_end : (i n : ℕ) → ((i + n) % 500 + 1) % 500 ≡ (i + suc n) % 500
next_end i n = omega arith

below_499 : (n : ℕ) → (n == 499) ≡ false → n < 500 → suc n < 500
below_499 n other few = ground arith

distinct : (i m n : ℕ) → m < n → n < 500 → (i + m) % 500 ≢ (i + n) % 500
distinct i m n lt few same = omega arith

full_turn : (i e n : ℕ) → n ≡ 499 → i < 500 → e ≡ (i + n) % 500 → (e + 1) % 500 ≡ i
full_turn i e n full low at_end = omega arith

not_full : (i e n : ℕ) → n ≢ 499 → i < 500 → n < 500 → e ≡ (i + n) % 500 → (e + 1) % 500 ≢ i
not_full i e n other low few at_end same = omega arith

module _ (b : KeyBuffer) (ch : ℕ) (cs : List ℕ) (h : Holds b cs) where
  is_full : ((b.end + 1) % 500 == b.front) ≡ (length cs == 499)
  is_full = elim (Bool-cases (length cs == 499)) [
    | inl full ↦
        let e : (b.end + 1) % 500 ≡ b.front =
          full_turn b.front b.end (length cs) (eqb→eq (length cs) 499 full) h.front_ok h.end_at in
        rw (full, e, eqb_refl b.front)
    | inr other ↦ rw other (
        eqb_of_ne ((b.end + 1) % 500) b.front (
          not_full b.front b.end (length cs) (λ e. ground (arith, e, other)) h.front_ok h.room
            h.end_at))
  ]

  abbrev stored : KeyBuffer
  stored = record b { buf = λ j. if j == b.end then ch else b.buf j; end = (b.end + 1) % 500 }

  stored-Holds : (length cs == 499) ≡ false → Holds stored (cs ++ (ch ∷ []))
  stored-Holds other = record {
    front_ok = h.front_ok;
    room = rw size (below_499 (length cs) other h.room);
    end_at = rw (size, h.end_at) (next_end b.front (length cs));
    chars = rw size (
        append_one stored.buf b.front (length cs) h.front_ok
        ∙ rw
            (
              frame b.buf b.end ch b.front (length cs) h.front_ok end_ok apart_end,
              h.chars,
              ← h.end_at,
              eqb_refl b.end,
            )
            refl);
  }
    where
      size : length (cs ++ (ch ∷ [])) ≡ suc (length cs)
      size = length-append cs (ch ∷ []) ∙ ground arith

      end_ok : b.end < 500
      end_ok = rw h.end_at (omega arith)

      apart_end : (m : ℕ) → m < length cs → (b.front + m) % 500 ≢ b.end
      apart_end m lt same = distinct b.front m (length cs) lt h.room (same ∙ h.end_at)

-- A character that is written goes behind the others, unless the buffer holds 499 already: then it
-- is dropped.
pub write_key_buffer-Holds :
    (b : KeyBuffer) (ch : ℕ) (cs : List ℕ)
    → Holds b cs
    → Holds (write_key_buffer ch b) (if length cs == 499 then cs else cs ++ (ch ∷ []))
unfolding write_key_buffer
write_key_buffer-Holds b ch cs h = elim (Bool-cases (length cs == 499)) [
  | inl full ↦ rw (is_full b ch cs h, full) h
  | inr other ↦ rw (is_full b ch cs h, other) (stored-Holds b ch cs h other)
]
