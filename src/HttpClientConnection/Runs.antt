-- ===== src/HttpClientConnection/Runs.antt =====
-- network/http-client-connection.cc: the reads of a request, one after the other.
use polar_express.Base.{
  ◌≡◌, refl, sym, ap, ◌∙◌, subst, ℕ, ◌<◌, Bytes, ◌++◌, Option, none, some, Bool, true, false, arith,
  length, List, flatten, length-drop, leb, leb→le, Option-cases, inl, inr,
}
use polar_express.StreamConnection.{Stream, cut}
use polar_express.StreamConnection.Search.{cut_shorter}
use polar_express.StreamConnection.Reads.{
  Read, until, size, IsReady, reading, start-reading, complete, found, yield, IsDelivered,
  IsUnsplit, IsRefused,
}
use polar_express.StreamConnection.Delivery.{read_lem}
use polar_express.HttpClientConnection.{
  Client, Handler, nothing, on_read, Outcome, done, thrown, Exception, no_room, read_next,
}
use polar_express.HttpClientConnection.Handlers.{after_read, handle, store, completed}
use polar_express.HttpClientConnection.Parse.{StatusTools}

-- The connection waits for a read, with the bytes `unread` in the stream's buffer and to come.
pub record IsAsking (q : Read) (h : Handler) (c : Client) (incoming unread : Bytes) : Type 0 where
  pub stream : Stream
  pub ready : IsReady stream
  pub is_stream : c.stream ≡ reading q stream
  pub waits : c.waiting ≡ on_read q h
  pub left : stream.read_streambuf ++ incoming ≡ unread

-- All runs of the reads end in which no terminator arrives in parts, whatever the pieces that the
-- peer's bytes arrive in: with a state for which `P` holds, or with an exception of which `T` holds.
module _ (t : StatusTools) (P : Client → Bytes → Type 0) (T : Exception → Type 0) where
  pub data Ends : Outcome → Bytes → Type 0 where
    over :
        (c : Client) (incoming : Bytes)
        → c.waiting ≡ nothing
        → P c incoming
        → Ends (done c) incoming
    throws : (incoming : Bytes) (e : Exception) → T e → Ends (thrown e) incoming
    reads :
        (c : Client) (incoming : Bytes) (q : Read) (h : Handler)
        → c.waiting ≡ on_read q h
        → ((err : Bool) (pieces : List Bytes) (left : Bytes)
            → IsDelivered q c.stream incoming err pieces left
            → IsUnsplit q c.stream pieces
            → Ends (completed t q h err (flatten pieces) c) left)
        → Ends (done c) incoming

-- A stream after a read of `unread`.
pub record HasTaken (q : Read) (unread : Bytes) (secure : Bool) (s : Stream) (left : Bytes)
    : Type 0 where
  pub ready : IsReady s
  pub ok : s.last_read_succeeded ≡ (yield q unread).0
  pub rest : s.read_streambuf ++ left ≡ (yield q unread).2
  pub same : s.is_secure ≡ secure

reading-secure : (q : Read) (s : Stream) → (reading q s).is_secure ≡ s.is_secure
reading-secure (until term) s = refl
reading-secure (size n) s = refl

pub Ends-read :
    (t : StatusTools) (P : Client → Bytes → Type 0) (T : Exception → Type 0) (q : Read)
    (h : Handler) (c : Client) (incoming unread : Bytes)
    → IsAsking q h c incoming unread
    → ((s : Stream) (left : Bytes)
        → HasTaken q unread c.stream.is_secure s left
        → Ends t P T
            (handle t h (store t h (yield q unread).1 (record c { stream = s; waiting = nothing })))
            left)
    → Ends t P T (done c) incoming
unfolding completed
Ends-read t P T q h c incoming unread a k =
    Ends.reads c incoming q h a.waits λ err pieces left d unsplit.
      let d' : IsDelivered q (reading q a.stream) incoming err pieces left =
        subst (λ s. IsDelivered q s incoming err pieces left) a.is_stream d in
      let unsplit' : IsUnsplit q (reading q a.stream) pieces =
        subst (λ s. IsUnsplit q s pieces) a.is_stream unsplit in
      let (accepted, (s, e, has)) = read_lem a.ready t.can_allocate q d' unsplit' in
      let yields : yield q (a.stream.read_streambuf ++ incoming) ≡ yield q unread =
        ap (yield q) a.left in
      let taken : HasTaken q unread c.stream.is_secure s left = record {
        ready = has.ready;
        ok = has.ok ∙ ap (λ y. y.0) yields;
        rest = has.unread ∙ ap (λ y. y.2) yields;
        same =
            has.secure ∙ sym (reading-secure q a.stream) ∙ sym (ap (λ x. x.is_secure) a.is_stream);
      } in
      subst (λ o. Ends t P T o left)
        (sym (ap (after_read t h c) (ap (complete q err (flatten pieces)) a.is_stream ∙ e)))
        (subst
          (λ x.
            Ends t P T (handle t h (store t h x (record c { stream = s; waiting = nothing }))) left)
          (sym (has.got ∙ ap (λ y. y.1) yields)) (k s left taken))

-- A next read ends if it does once it is accepted.
pub read_next-Ends :
    (t : StatusTools) (P : Client → Bytes → Type 0) (T : Exception → Type 0) (q : Read)
    (h : Handler) (c : Client) (incoming : Bytes)
    → IsReady c.stream
    → ((n : ℕ) → IsRefused t.can_allocate q c.stream n → T (no_room n))
    → (IsAsking q h
          (record c { stream = reading q c.stream; waiting = on_read q h })
          incoming
          (c.stream.read_streambuf ++ incoming)
        → Ends t P T
            (done (record c { stream = reading q c.stream; waiting = on_read q h }))
            incoming)
    → Ends t P T (read_next t q h c) incoming
unfolding read_next
read_next-Ends t P T q h c incoming r refused k = elim (start-reading t.can_allocate q c.stream r) [
  | inl e ↦
      rw e
        (k (record { stream = c.stream; ready = r; is_stream = refl; waits = refl; left = refl }))
  | inr (n, not_made, e) ↦ rw e (Ends.throws incoming (no_room n) (refused n not_made))
]

pub yield_until-shorter :
    (term : Bytes) (u : Bytes)
    → 0 < length term
    → (yield (until term) u).0 ≡ true
    → length (yield (until term) u).2 < length u
unfolding yield
yield_until-shorter term u p h = elim (Option-cases (cut term u)) [
  | inl n ↦ ground (arith, ap (λ c. (found u c).0) n)
  | inr ((line, rest), e) ↦
      subst (λ c. length (found u c).2 < length u) (sym e)
        (omega (arith, cut_shorter term u line rest e))
]

pub yield_size-shorter :
    (n : ℕ) (u : Bytes)
    → 0 < n
    → (yield (size n) u).0 ≡ true
    → length (yield (size n) u).2 < length u
unfolding yield
yield_size-shorter n u p h = omega (arith, leb→le n (length u) h, length-drop n u)

-- A read for a line that fails leaves the vector empty.
pub yield_until-nonempty :
    (term u : Bytes)
    → leb (length (yield (until term) u).1) 2 ≡ false
    → (yield (until term) u).0 ≡ true
unfolding yield
yield_until-nonempty term u = look (cut term u)
  where
    look :
        (o : Option (Bytes × Bytes)) → leb (length (found u o).1) 2 ≡ false → (found u o).0 ≡ true
    look none h = cc
    look (some (line, rest)) h = refl

-- A read for a line that succeeds has found the terminator.
pub yield_until-cut :
    (term u : Bytes)
    → (yield (until term) u).0 ≡ true
    → cut term u ≡ some ((yield (until term) u).1, (yield (until term) u).2)
unfolding yield
yield_until-cut term u = look (cut term u)
  where
    look :
        (o : Option (Bytes × Bytes))
        → (found u o).0 ≡ true
        → o ≡ some ((found u o).1, (found u o).2)
    look none h = cc
    look (some (line, rest)) h = refl
