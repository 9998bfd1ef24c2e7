-- ===== src/StreamConnection/Delivery.antt =====
-- network/stream-connection.h: what a read gives, however the bytes of it arrive.
use polar_express.Base.{
  ◌≡◌, refl, sym, ap, ap₂, some_inj, ◌∙◌, subst, ℕ, zero, suc, ◌-◌, ◌<◌, Bytes, [], ◌∷◌, ◌++◌, none,
  some, Bool, true, false, not, arith, length, length-append, length-take, append-nil, append_assoc,
  inl, inr, take, drop, List, flatten, ◌⊎◌, Bool-cases, Option-cases, if◌then◌else◌, leb,
  take_append, drop_append, le→leb, take_all, drop_all,
}
use polar_express.StreamConnection.{Stream, cut, handle_read_until, handle_read_size}
use polar_express.StreamConnection.Search.{cut-append, cut-behind}
use polar_express.StreamConnection.Reads.{
  Read, until, size, IsReady, start, complete, found, yield, IsDelivered, HasRead, reading,
  start-reading, IsUnsplit, IsRefused, has, last_has,
}

conflict : {b : Bool} → b ≡ true → b ≡ false → ⊥
conflict h k = cc

leb-false : (a b : ℕ) → b < a → leb a b ≡ false
leb-false a b h = ground arith

-- Bytes that complete a first part of a take.
take_full :
    (n : ℕ) (xs ys zs : Bytes)
    → length ys ≡ n - length (take n xs)
    → (take n xs ++ ys ≡ take n (xs ++ (ys ++ zs))) × (drop n xs ++ zs ≡ drop n (xs ++ (ys ++ zs)))
take_full zero xs [] zs h = (refl, refl)
take_full zero xs (y ∷ ys) zs h = absurd (omega arith)
take_full (suc n) [] ys zs h =
    let e : length ys ≡ suc n = omega arith in
    (
      sym (take_append ys zs) ∙ ap (λ k. take k (ys ++ zs)) e,
      sym (drop_append ys zs) ∙ ap (λ k. drop k (ys ++ zs)) e,
    )
take_full (suc n) (x ∷ xs) ys zs h =
    let ih = take_full n xs ys zs (omega arith) in (ap (◌∷◌ x) (ih.0), ih.1)

take_short :
    (n : ℕ) (xs ys : Bytes)
    → length ys < n - length (take n xs)
    → (take n xs ++ ys ≡ take n (xs ++ ys))
      × (drop n xs ≡ [])
      × (drop n (xs ++ ys) ≡ [])
      × (length (xs ++ ys) < n)
take_short zero xs ys h = absurd (omega arith)
take_short (suc n) [] ys h =
    (sym (take_all (suc n) ys (omega arith)), refl, drop_all (suc n) ys (omega arith), omega arith)
take_short (suc n) (x ∷ xs) ys h =
    let (a, b, c, d) = take_short n xs ys (omega arith) in (ap (◌∷◌ x) a, b, c, omega arith)

-- A terminator in the last piece is in all the bytes.
last_has-cut :
    (term piece : Bytes) (ps : List Bytes)
    → last_has term piece ps ≡ true
    → (line : Bytes) × ((rest : Bytes) × (cut term (piece ++ flatten ps) ≡ some (line, rest)))
unfolding last_has flatten
last_has-cut term piece [] h = elim (Option-cases (cut term piece)) [
  | inl n ↦ absurd (conflict h (ap has n))
  | inr ((line, rest), e) ↦ (line, (rest, ap (cut term) (append-nil piece) ∙ e))
]
last_has-cut term piece (p ∷ ps) h = elim (Bool-cases (has (cut term piece))) [
  | inl e ↦ absurd (conflict h (ap (λ b. if b then false else last_has term p ps) e))
  | inr e ↦
      let (line, (rest, f)) =
        last_has-cut term p ps (sym (ap (λ b. if b then false else last_has term p ps) e) ∙ h) in
      cut-behind term piece (p ++ flatten ps) line rest f
]

IsReady-after :
    {s t : Stream}
    → IsReady s
    → t.is_open ≡ s.is_open
    → t.is_opening ≡ s.is_opening
    → t.has_networking ≡ s.has_networking
    → t.is_reading ≡ false
    → IsReady t
IsReady-after r a b c d = record {
  open_lem = a ∙ r.open_lem;
  idle = d;
  networked = c ∙ r.networked;
  settled = b ∙ r.settled;
}

module _ {s : Stream} (r : IsReady s) {incoming : Bytes} {err : Bool} {pieces : List Bytes}
    {left : Bytes} where
  until_lem :
      (term : Bytes)
      → IsDelivered (until term) (reading (until term) s) incoming err pieces left
      → IsUnsplit (until term) (reading (until term) s) pieces
      → (t : Stream) × (complete (until term) err (flatten pieces) (reading (until term) s)
          ≡ some t)
        × HasRead s left (yield (until term) (s.read_streambuf ++ incoming)) t
  unfolding yield complete handle_read_until
  until_lem term d unsplit =
      let arrived : Bytes = flatten pieces in
      let all : Bytes = s.read_streambuf ++ incoming in
      let joined : all ≡ (s.read_streambuf ++ arrived) ++ left =
        ap (◌++◌ s.read_streambuf) d.whole ∙ sym (append_assoc s.read_streambuf arrived left) in
      elim d.outcome [
        | inl (e, last) ↦
            let (line, (rest, f)) = last_has-cut term s.read_streambuf pieces last in
            let g : cut term all ≡ some (line, rest ++ left) =
              ap (cut term) joined
              ∙ cut-append term (s.read_streambuf ++ arrived) line rest left f in
            let t : Stream = record s {
              is_reading = false;
              last_read_succeeded = true;
              read_data = line;
              read_streambuf = rest;
            } in
            (
              t,
              rw (r.networked, f, e) refl,
              subst (λ y. HasRead s left y t) (sym (ap (found all) g))
                  (record {
                    ready = IsReady-after r refl refl refl refl;
                    secure = refl;
                    ok = refl;
                    got = refl;
                    unread = refl;
                  }),
            )
        | inr (e, l, missed) ↦
            let f : cut term (s.read_streambuf ++ arrived) ≡ none = unsplit missed in
            let same : all ≡ s.read_streambuf ++ arrived =
              joined
              ∙ ap (◌++◌ (s.read_streambuf ++ arrived)) l
              ∙ append-nil (s.read_streambuf ++ arrived) in
            let g : cut term all ≡ none = ap (cut term) same ∙ f in
            let t : Stream = record s {
              is_reading = false;
              last_read_succeeded = false;
              read_data = [];
              read_streambuf = s.read_streambuf ++ arrived;
            } in
            (
              t,
              rw (r.networked, f, e) refl,
              subst (λ y. HasRead s left y t) (sym (ap (found all) g))
                  (record {
                    ready = IsReady-after r refl refl refl refl;
                    secure = refl;
                    ok = refl;
                    got = refl;
                    unread = sym joined;
                  }),
            )
      ]

  size_lem :
      (n : ℕ)
      → IsDelivered (size n) (reading (size n) s) incoming err pieces left
      → (t : Stream) × (complete (size n) err (flatten pieces) (reading (size n) s) ≡ some t)
        × HasRead s left (yield (size n) (s.read_streambuf ++ incoming)) t
  unfolding yield complete handle_read_size
  size_lem n d =
      let arrived : Bytes = flatten pieces in
      let buf : Bytes = s.read_streambuf in
      let t : Stream = handle_read_size err arrived (reading (size n) s) in
      (
        t,
        refl,
        elim d.outcome [
          | inl (e, f) ↦
              let (got, unread) = take_full n buf arrived left (sym (some_inj f)) in
              record {
                ready = IsReady-after r refl refl refl refl;
                secure = refl;
                ok =
                    ap not e
                    ∙ sym (
                        le→leb n (length (buf ++ incoming)) (
                          omega (
                            arith,
                            sym (some_inj f),
                            ap length d.whole,
                            length-append arrived left,
                            length-append buf incoming,
                            length-take n buf,
                          )));
                got = got ∙ ap (λ x. take n (buf ++ x)) (sym d.whole);
                unread = unread ∙ ap (λ x. drop n (buf ++ x)) (sym d.whole);
              }
          | inr (e, l, (m, f, short)) ↦
              let (got, none_left, none_unread, few) =
                take_short n buf arrived (omega (arith, short, some_inj f)) in
              let same : incoming ≡ arrived = d.whole ∙ ap (◌++◌ arrived) l ∙ append-nil arrived in
              record {
                ready = IsReady-after r refl refl refl refl;
                secure = refl;
                ok =
                    ap not e
                    ∙ sym (
                        leb-false n (length (buf ++ incoming))
                          (subst (λ x. length (buf ++ x) < n) (sym same) few));
                got = got ∙ ap (λ x. take n (buf ++ x)) (sym same);
                unread =
                    ap₂ ◌++◌ none_left l ∙ sym none_unread ∙ ap (λ x. drop n (buf ++ x)) (sym same);
              }
        ],
      )

  -- A read that starts on a stream that is ready is accepted, or throws since it asks for more
  -- bytes than can be allocated. If no terminator arrives in parts, then an accepted read that asio
  -- completes has what it yields of the bytes in the buffer and those to come, whatever the pieces:
  -- the line or the number of bytes asked for, or a failure if the peer closes before. The stream is
  -- ready again.
  pub read_lem :
      (can_allocate : ℕ → Bool) (q : Read)
      → IsDelivered q (reading q s) incoming err pieces left
      → IsUnsplit q (reading q s) pieces
      → ((start can_allocate q s ≡ inr (reading q s, true))
          ⊎ ((n : ℕ) × IsRefused can_allocate q s n × (start can_allocate q s ≡ inl n)))
        × ((t : Stream) × (complete q err (flatten pieces) (reading q s) ≡ some t)
            × HasRead s left (yield q (s.read_streambuf ++ incoming)) t)
  read_lem can_allocate (until term) d unsplit =
      (start-reading can_allocate (until term) s r, until_lem term d unsplit)
  read_lem can_allocate (size n) d unsplit = (start-reading can_allocate (size n) s r, size_lem n d)
