-- ===== src/Text/Format/Batches.antt =====
-- What the buffer of printf and the console hold together.
use frostbite.Base.{
  ℕ, ◌+◌, ◌-◌, ◌%◌, ◌^◌, ◌<◌, ◌≡◌, refl, sym, ◌∙◌, inl, inr, true, false, not, List, [], ◌∷◌, ◌++◌,
  arith, ◌==◌, length, length-append, and_right, Bool-cases,
}
use frostbite.Text.Format.{
  Batch, write_string, sys_write, flush_uart, put_char, put_string, print_batch_buf_size,
}
use frostbite.Text.Str.{
  char_at-append, char_at-append_before, no_nul-append, str_at, char_at, no_nul, str_at-text,
  char_at-past,
}
use frostbite.Text.{poke}
use mathlib.Core.List.{append-nil, append_assoc}

pub write_string-append :
    (xs ys : List ℕ) → write_string (xs ++ ys) ≡ write_string xs ++ write_string ys
unfolding write_string
write_string-append [] ys = refl
write_string-append (x ∷ xs) ys = elim (Bool-cases (x == 10)) [
  | inl feed ↦ rw (feed, write_string-append xs ys) refl
  | inr other ↦ rw (other, write_string-append xs ys) refl
]

-- The text `t` was printed: the buffer has the end of it, the console the rest.
pub record Printed (o : Batch) (t : List ℕ) : Type 0 where
  pub pending : List ℕ
  pub chars : (j : ℕ) → j < length pending → o.buf j ≡ char_at pending j
  pub size : o.pos ≡ length pending
  pub short : length pending < print_batch_buf_size
  pub real : no_nul pending ≡ true
  pub shown : o.console ++ write_string pending ≡ write_string t
  pub word : o.count < 2 ^ 16
  pub counted : (o.count + o.pos) % 2 ^ 16 ≡ length t % 2 ^ 16

pub flushed_string :
    (o : Batch) (t : List ℕ) (p : Printed o t)
    → str_at print_batch_buf_size (poke o.pos 0 o.buf) 0 ≡ p.pending
unfolding poke
flushed_string o t p =
    str_at-text p.pending print_batch_buf_size (poke o.pos 0 o.buf) 0 p.real
      (λ j le.
        let e : 0 + j ≡ j = omega arith in
        rw e (elim (Bool-cases (j == o.pos)) [
          | inl end ↦ rw end (sym (char_at-past p.pending j (ground (arith, p.size))))
          | inr before ↦ rw before (p.chars j (ground (arith, p.size)))
        ]))
      p.short

pub flush_uart-Printed : (o : Batch) (t : List ℕ) → Printed o t → Printed (flush_uart o) t
unfolding flush_uart sys_write write_string
flush_uart-Printed o t p = record {
  pending = [];
  chars = λ j lt. absurd (omega arith);
  size = refl;
  short = omega arith;
  real = refl;
  shown = rw (flushed_string o t p, append-nil) (p.shown);
  word = omega arith;
  counted = omega (arith, p.counted);
}

-- A character behind the pending ones.
push-Printed :
    (c : ℕ) (o : Batch) (t : List ℕ)
    → (c == 0) ≡ false
    → (p : Printed o t) → o.pos < print_batch_buf_size - 1
    → Printed (record o { buf = poke o.pos c o.buf; pos = o.pos + 1 }) (t ++ c ∷ [])
unfolding poke
push-Printed c o t char p room =
    let size = length-append p.pending (c ∷ []) in
    record {
      pending = p.pending ++ c ∷ [];
      chars = λ j lt. elim (Bool-cases (j == o.pos)) [
        | inl end ↦
            let at : j ≡ length p.pending + 0 = ground (arith, p.size) in
            rw end (sym (rw at (char_at-append p.pending (c ∷ []) 0)))
        | inr before ↦
            let lt' : j < length p.pending = ground (arith, p.size, size, lt) in
            rw before (p.chars j lt' ∙ sym (char_at-append_before p.pending (c ∷ []) j lt'))
      ];
      size = omega (arith, p.size, size);
      short = omega (arith, size, p.size);
      real = rw (no_nul-append p.pending (c ∷ []), p.real, char) refl;
      shown =
          rw
            (
              write_string-append p.pending (c ∷ []),
              write_string-append t (c ∷ []),
              ← append_assoc o.console (write_string p.pending) (write_string (c ∷ [])),
              p.shown,
            )
            refl;
      word = p.word;
      counted = omega (arith, p.counted, length-append t (c ∷ []));
    }

pub put_char-Printed :
    (c : ℕ) (o : Batch) (t : List ℕ)
    → (c == 0) ≡ false
    → Printed o t
    → Printed (put_char c o) (t ++ c ∷ [])
unfolding put_char flush_uart
put_char-Printed c o t char p = elim (Bool-cases (o.pos == print_batch_buf_size - 1)) [
  | inl full ↦
      rw full (push-Printed c (flush_uart o) t char (flush_uart-Printed o t p) (omega arith))
  | inr room ↦ rw room (push-Printed c o t char p (ground (arith, p.size, p.short)))
]

pub put_string-Printed :
    (str : List ℕ) (o : Batch) (t : List ℕ)
    → no_nul str ≡ true
    → Printed o t
    → Printed (put_string str o) (t ++ str)
unfolding put_string
put_string-Printed [] o t real p = rw append-nil p
put_string-Printed (c ∷ cs) o t real p = rw (append_assoc t (c ∷ []) cs) at (
    put_string-Printed cs (put_char c o) (t ++ c ∷ []) (and_right (not (c == 0)) (no_nul cs) real)
      (put_char-Printed c o t (ground arith) p))
