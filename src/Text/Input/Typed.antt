-- ===== src/Text/Input/Typed.antt =====
-- What read_input leaves in its buffer.
use frostbite.Base.{
  eqb_refl, ℕ, zero, suc, ◌+◌, ◌-◌, ◌≤◌, ◌<◌, ◌≡◌, refl, ◌⊎◌, inl, inr, Bool, true, false, ◌||◌,
  List, [], ◌∷◌, arith, ◌==◌, if◌then◌else◌, ltb, leb, length, Bool-cases,
}
use frostbite.Text.{poke}
use frostbite.Text.Str.{char_at}
use frostbite.Text.Input.{Reader, read_key, delete_char, enter, read_loop_keys, read_input}

-- What the keys spell, the last character first: a NUL for a space behind other input.
abbrev pub type_char : ℕ → List ℕ → List ℕ
type_char ch [] = if ch == b' ' || ch == 127 || ch == 3 || ch == 26 then [] else ch ∷ []
type_char ch (c ∷ cs) =
    if ch == b' '
    then 0 ∷ c ∷ cs
    else if ch == 127
    then cs
    else if ch == 3 || ch == 26
    then c ∷ cs
    else ch ∷ c ∷ cs

-- The keys up to the enter key, or to the end of the room.
abbrev pub type_chars : (max_size : ℕ) → List ℕ → List ℕ → Bool × List ℕ
type_chars max_size [] typed =
    if leb (max_size - 1) (length typed) then (true, typed) else (false, typed)
type_chars max_size (ch ∷ chs) typed =
    let rest = type_chars max_size chs (type_char ch typed) in
    if leb (max_size - 1) (length typed) || ch == 13 then (true, typed) else rest

module _ (max_size : ℕ) (buf0 : ℕ → ℕ) where
  -- The buffer holds what was typed, within its room.
  record Has (r : Reader) (typed : List ℕ) : Type 0 where
    count : r.write_count ≡ length typed
    room : r.write_count ≤ max_size - 1
    chars : (k : ℕ) → k < length typed → r.buf (length typed - 1 - k) ≡ char_at typed k
    kept : (j : ℕ) → max_size ≤ j → r.buf j ≡ buf0 j

  append-Has :
      (r : Reader) (typed : List ℕ) (c : ℕ) (e : ℕ → ℕ) (out : List ℕ)
      → Has r typed
      → leb (max_size - 1) r.write_count ≡ false
      → Has
          (record r {
            buf = poke r.write_count c r.buf;
            shell_echo = e;
            write_count = r.write_count + 1;
            out = out;
          })
          (c ∷ typed)
  unfolding poke
  append-Has r typed c e out h room = record {
    count = omega (arith, h.count);
    room = ground (arith, h.count);
    chars = λ k lt. at k lt;
    kept =
        λ j le. let other : (j == r.write_count) ≡ false = ground arith in rw other (h.kept j le);
  }
    where
      at :
          (k : ℕ)
          → k < length (c ∷ typed)
          → poke r.write_count c r.buf (length (c ∷ typed) - 1 - k) ≡ char_at (c ∷ typed) k
      at zero lt =
          let here : (suc (length typed) - 1 - 0 == r.write_count) ≡ true =
            ground (arith, h.count) in
          rw here refl
      at (suc k) lt =
          let same : suc (length typed) - 1 - suc k ≡ length typed - 1 - k = omega arith in
          let other : (length typed - 1 - k == r.write_count) ≡ false = ground (arith, h.count) in
          rw (same, other) (h.chars k (omega arith))

  same-Has :
      (r : Reader) (typed : List ℕ) (e : ℕ → ℕ) (out : List ℕ)
      → Has r typed
      → Has (record r { shell_echo = e; out = out }) typed
  same-Has r typed e out h = record {
    count = h.count;
    room = h.room;
    chars = h.chars;
    kept = h.kept;
  }

  erased-Has :
      (r : Reader) (typed : List ℕ) (c : ℕ) (e : ℕ → ℕ) (out : List ℕ)
      → Has r (c ∷ typed)
      → Has
          (record r {
            buf = poke (r.write_count - 1) 0 r.buf;
            shell_echo = e;
            write_count = r.write_count - 1;
            out = out;
          })
          typed
  unfolding poke
  erased-Has r typed c e out h = record {
    count = omega (arith, h.count);
    room = omega (arith, h.room);
    chars = λ k lt.
        let same : suc (length typed) - 1 - suc k ≡ length typed - 1 - k = omega arith in
        let other : (length typed - 1 - k == r.write_count - 1) ≡ false =
          ground (arith, h.count, lt) in
        rw other (rw (same) at (h.chars (suc k) (omega arith)));
    kept = λ j le.
        let other : (j == r.write_count - 1) ≡ false = ground (arith, h.count, h.room) in
        rw other (h.kept j le);
  }

  delete_char-Has :
      (r : Reader) (typed : List ℕ) (c : ℕ) → Has r (c ∷ typed) → Has (delete_char r) typed
  unfolding delete_char
  delete_char-Has r typed c h =
      let inner : (r.write_count == 0) ≡ false = ground (arith, h.count) in
      elim (Bool-cases (r.buf (r.write_count - 1) == 27)) [
        | inl twice ↦ rw (inner, twice) (erased-Has r typed c _ _ h)
        | inr once ↦ rw (inner, once) (erased-Has r typed c _ _ h)
      ]

  nothing_left-Has : (r : Reader) → Has r [] → Has (delete_char r) []
  unfolding delete_char
  nothing_left-Has r h =
      let start : (r.write_count == 0) ≡ true = ground (arith, h.count) in rw start h

  read_key-Has :
      (ch : ℕ) (r : Reader) (typed : List ℕ)
      → Has r typed
      → leb (max_size - 1) r.write_count ≡ false
      → Has (read_key ch r) (type_char ch typed)
  unfolding read_key
  read_key-Has ch r [] h room = elim (Bool-cases (ch == b' ')) [
    | inl space ↦
        let none_yet : ltb 0 r.write_count ≡ false = ground (arith, h.count) in
        rw (space, none_yet) (same-Has r [] _ _ h)
    | inr ns ↦ elim (Bool-cases (ch == 127)) [
      | inl delete ↦ rw (ns, delete) (nothing_left-Has r h)
      | inr nd ↦ elim (Bool-cases (ch == 3 || ch == 26)) [
        | inl ctrl ↦
            let no_escape : (ch == 27) ≡ false = ground arith in rw (ns, nd, no_escape, ctrl) h
        | inr nc ↦ elim (Bool-cases (ch == 27)) [
          | inl esc ↦ rw (ns, nd, nc, esc) (append-Has r [] ch _ _ h room)
          | inr ne ↦ rw (ns, nd, nc, ne) (append-Has r [] ch _ _ h room)
        ]
      ]
    ]
  ]
  read_key-Has ch r (c ∷ cs) h room = elim (Bool-cases (ch == b' ')) [
    | inl space ↦
        let some_yet : ltb 0 r.write_count ≡ true = ground (arith, h.count) in
        rw (space, some_yet) (append-Has r (c ∷ cs) 0 _ _ h room)
    | inr ns ↦ elim (Bool-cases (ch == 127)) [
      | inl delete ↦ rw (ns, delete) (delete_char-Has r cs c h)
      | inr nd ↦ elim (Bool-cases (ch == 3 || ch == 26)) [
        | inl ctrl ↦
            let no_escape : (ch == 27) ≡ false = ground arith in rw (ns, nd, no_escape, ctrl) h
        | inr nc ↦ elim (Bool-cases (ch == 27)) [
          | inl esc ↦ rw (ns, nd, nc, esc) (append-Has r (c ∷ cs) ch _ _ h room)
          | inr ne ↦ rw (ns, nd, nc, ne) (append-Has r (c ∷ cs) ch _ _ h room)
        ]
      ]
    ]
  ]

  -- A NUL at the end keeps what was typed.
  ended-Has :
      (r : Reader) (typed : List ℕ) (e : ℕ → ℕ) (out : List ℕ)
      → 0 < max_size
      → Has r typed
      → Has (record r { buf = poke r.write_count 0 r.buf; shell_echo = e; out = out }) typed
  unfolding poke
  ended-Has r typed e out some_room h = record {
    count = h.count;
    room = h.room;
    chars = λ k lt.
        let other : (length typed - 1 - k == r.write_count) ≡ false = ground (arith, h.count, lt) in
        rw other (h.chars k lt);
    kept = λ j le.
        let other : (j == r.write_count) ≡ false = ground (arith, h.room) in rw other (h.kept j le);
  }

  -- The loop ended with a NUL behind the input, or waits.
  abbrev Closed : Bool → Reader → Type 0
  Closed done r = (done ≡ false) ⊎ ((done ≡ true) × (r.buf r.write_count ≡ 0))

  -- The loop on the keys left, as the keys spell it.
  abbrev Agrees : Bool × (Reader × List ℕ) → Bool × List ℕ → Type 0
  Agrees r t = (r.0 ≡ t.0) × Has r.1.0 t.1 × Closed r.0 r.1.0

  full-Agrees :
      (r : Reader) (typed : List ℕ) (left : List ℕ)
      → 0 < max_size
      → Has r typed
      → leb (max_size - 1) r.write_count ≡ true
      → Agrees (true, (record r { buf = poke (max_size - 1) 0 r.buf }, left)) (true, typed)
  unfolding poke
  full-Agrees r typed left some_room h full =
      let at_end : max_size - 1 ≡ r.write_count = ground (arith, h.room) in
      rw at_end (
        refl,
        ended-Has r typed r.shell_echo r.out some_room h,
        inr (refl, rw (eqb_refl r.write_count) refl),
      )

  enter-Agrees :
      (r : Reader) (typed : List ℕ) (left : List ℕ)
      → 0 < max_size
      → Has r typed
      → Agrees (true, (enter r, left)) (true, typed)
  unfolding enter poke
  enter-Agrees r typed left some_room h =
      (refl, ended-Has r typed _ _ some_room h, inr (refl, rw (eqb_refl r.write_count) refl))

  read_loop_keys-Agrees :
      (keys : List ℕ) (r : Reader) (typed : List ℕ)
      → 0 < max_size
      → Has r typed
      → Agrees (read_loop_keys max_size keys r) (type_chars max_size keys typed)
  unfolding read_loop_keys
  read_loop_keys-Agrees [] r typed some_room h =
      let same = h.count in
      elim (Bool-cases (leb (max_size - 1) r.write_count)) [
        | inl full ↦
            let full' : leb (max_size - 1) (length typed) ≡ true = rw (same) at full in
            rw (full, full') (full-Agrees r typed [] some_room h full)
        | inr room ↦
            let room' : leb (max_size - 1) (length typed) ≡ false = rw (same) at room in
            rw (room, room') (refl, h, inl refl)
      ]
  read_loop_keys-Agrees (ch ∷ chs) r typed some_room h =
      let same = h.count in
      elim (Bool-cases (leb (max_size - 1) r.write_count)) [
        | inl full ↦
            let full' : leb (max_size - 1) (length typed) ≡ true = rw (same) at full in
            rw (full, full') (full-Agrees r typed (ch ∷ chs) some_room h full)
        | inr room ↦
            let room' : leb (max_size - 1) (length typed) ≡ false = rw (same) at room in
            elim (Bool-cases (ch == 13)) [
              | inl cr ↦ rw (room, room', cr) (enter-Agrees r typed chs some_room h)
              | inr other ↦
                  rw (room, room', other)
                    (read_loop_keys-Agrees chs (read_key ch r) (type_char ch typed) some_room
                      (read_key-Has ch r typed h room))
            ]
      ]

  -- For a buffer with room and any keys, read_input ends exactly if the keys are ended by the enter key or
  -- fill the buffer. The buffer then holds what the keys spell, a NUL for a space between words, as many
  -- characters as its result says, less than its size, and a NUL behind them; while it waits it holds what
  -- was typed so far. Nothing behind the buffer is changed.
  pub read_input-typed :
      (keys : List ℕ)
      → 0 < max_size
      → (let r = read_input max_size keys buf0 in
          let t = type_chars max_size keys [] in
          (r.0 ≡ t.0)
          × (r.1.0.write_count ≡ length t.1)
          × (length t.1 ≤ max_size - 1)
          × ((k : ℕ) → k < length t.1 → r.1.0.buf (length t.1 - 1 - k) ≡ char_at t.1 k)
          × ((r.0 ≡ false) ⊎ ((r.0 ≡ true) × (r.1.0.buf (length t.1) ≡ 0)))
          × ((j : ℕ) → max_size ≤ j → r.1.0.buf j ≡ buf0 j))
  unfolding read_input
  read_input-typed keys some_room =
      let start : Has (record { buf = buf0; shell_echo = λ j. 0; write_count = 0; out = [] }) [] =
        record {
          count = refl;
          room = omega arith;
          chars = λ k lt. absurd (omega arith);
          kept = λ j le. refl;
        } in
      let (done, h, closed) = read_loop_keys-Agrees keys _ [] some_room start in
      (done, h.count, omega (arith, h.count, h.room), h.chars, rw (h.count) at closed, h.kept)
