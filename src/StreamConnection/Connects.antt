-- ===== src/StreamConnection/Connects.antt =====
-- network/stream-connection.cc and ssl-connection.cc: attempts to connect.
use polar_express.Base.{
  ◌≡◌, ◌↔◌, refl, sym, ap, subst, some_inj, ◌∙◌, ℕ, [], Option, none, some, Bool, true, false, not,
  ◌&&◌, arith, if◌then◌else◌, ◌||◌,
}
use polar_express.StreamConnection.{
  Stream, ConnectionProperties, Next, connect, handshake, call, open_stream, handle_resolve,
  handle_connect, handle_handshake,
}

-- A stream in a state that its users meet.
pub record IsSound (s : Stream) : Type 0 where
  pub open_networked : s.is_open ≡ true → s.has_networking ≡ true
  pub opening_networked : s.is_opening ≡ true → s.has_networking ≡ true
  pub apart : s.is_opening ≡ true → s.is_open ≡ false

-- What the network answers to an attempt: whether the name is not found, all endpoints refuse and
-- the handshake fails.
pub record Answers : Type 0 where
  pub unresolved : Bool
  pub refused : Bool
  pub untrusted : Bool

-- The handlers of an attempt in the order in which they run. The endpoints that asio has tried
-- are all of them when it reports an error.
abbrev shake : Answers → Stream × Next → Option Stream
unfolding handle_handshake
shake a (s, connect) = none
shake a (s, handshake) = some (handle_handshake a.untrusted s).0
shake a (s, call) = some s

abbrev pub and_then {ℓ κ} : {A : Type ℓ} {B : Type κ} → Option A → (A → Option B) → Option B
and_then none f = none
and_then (some a) f = f a

abbrev connected : Answers → Stream × Next → Option Stream
unfolding handle_connect shake
connected a (s, connect) = and_then (handle_connect a.refused true s) (shake a)
connected a (s, handshake) = none
connected a (s, call) = some s

unfoldable pub attempt : (ℕ → Bool) → ConnectionProperties → Answers → Stream → Option Stream
unfolding open_stream handle_resolve connected
attempt has_dispatcher p a s =
    if (open_stream has_dispatcher p s).1
    then and_then (handle_resolve a.unresolved (open_stream has_dispatcher p s).0) (connected a)
    else some (open_stream has_dispatcher p s).0

module _ (p : ConnectionProperties) (s : Stream) where
  abbrev opening : Stream
  opening = record s {
    properties = p;
    last_write_succeeded = false;
    last_read_succeeded = false;
    has_networking = true;
    read_streambuf = [];
    is_opening = true;
  }

  abbrev opened_stream : Stream
  opened_stream = record opening { is_opening = false; is_open = true }

  abbrev closed_stream : Stream
  closed_stream = record opening { is_opening = false; is_open = false; has_networking = false }

  opened-IsSound : IsSound opened_stream
  opened-IsSound = ground arith

  closed-IsSound : IsSound closed_stream
  closed-IsSound = ground arith

  attempt-opens :
      (has_dispatcher : ℕ → Bool) (a : Answers)
      → s.is_open ≡ false
      → s.is_opening ≡ false
      → has_dispatcher p.network_usage_type ≡ true
      → attempt has_dispatcher p a s ≡ and_then (handle_resolve a.unresolved opening) (connected a)
  unfolding attempt
  attempt-opens has_dispatcher a o i d = rw (i, o, d) refl

  resolved_lem :
      (c u r t : Bool)
      → s.is_open ≡ false
      → s.is_secure ≡ c
      → let a : Answers = record { unresolved = u; refused = r; untrusted = t } in
        and_then (handle_resolve u opening) (connected a) ≡ (
          if c && not u && r
          then none
          else some (if not u && not r && (not c || not t) then opened_stream else closed_stream))
  unfolding handle_resolve connected
  resolved_lem true true r t o e = ground arith
  resolved_lem false true r t o e = ground arith
  resolved_lem true false true t o e = ground arith
  resolved_lem false false true t o e = ground arith
  resolved_lem true false false true o e = ground arith
  resolved_lem true false false false o e = ground arith
  resolved_lem false false false t o e = ground arith

-- An attempt on a stream that is closed and not opening. It uses an object that is gone exactly
-- if the stream is secure, its name is found and all its endpoints refuse. In all other cases the
-- attempt ends with a sound stream, which is open exactly if nothing failed.
pub attempt_lem :
    (has_dispatcher : ℕ → Bool) (p : ConnectionProperties) (a : Answers) (s : Stream)
    → s.is_open ≡ false
    → s.is_opening ≡ false
    → has_dispatcher p.network_usage_type ≡ true
    → ((attempt has_dispatcher p a s ≡ none)
        ↔ ((s.is_secure && not a.unresolved && a.refused) ≡ true))
      × ((t : Stream)
          → attempt has_dispatcher p a s ≡ some t
          → IsSound t
            × (t.is_opening ≡ false)
            × (t.is_open
                ≡ (not a.unresolved && not a.refused && (not s.is_secure || not a.untrusted))))
unfolding attempt
attempt_lem has_dispatcher p a s o i d =
    let faults : Bool = s.is_secure && not a.unresolved && a.refused in
    let good : Bool = not a.unresolved && not a.refused && (not s.is_secure || not a.untrusted) in
    let e : attempt has_dispatcher p a s
        ≡ (if faults then none else some (if good then opened_stream p s else closed_stream p s)) =
      attempt-opens p s has_dispatcher a o i d
      ∙ resolved_lem p s s.is_secure a.unresolved a.refused a.untrusted o refl in
    (
      (
        (λ n. fault_of faults _ (sym e ∙ n)),
        (λ f.
            e
            ∙ ap
                (λ b.
                  if b then none else some (if good then opened_stream p s else closed_stream p s))
                f),
      ),
      λ t h. ends_with faults good t (sym e ∙ h),
    )
  where
    fault_of : (b : Bool) (t : Stream) → (if b then none else some t) ≡ none → b ≡ true
    fault_of true t h = refl
    fault_of false t h = cc

    ends_with :
        (b g : Bool) (t : Stream)
        → (if b then none else some (if g then opened_stream p s else closed_stream p s)) ≡ some t
        → IsSound t × (t.is_opening ≡ false) × (t.is_open ≡ g)
    ends_with true g t h = cc
    ends_with false true t h =
        let e = some_inj h in
        subst (λ u. IsSound u × (u.is_opening ≡ false) × (u.is_open ≡ true)) e
          (opened-IsSound p s, refl, refl)
    ends_with false false t h =
        let e = some_inj h in
        subst (λ u. IsSound u × (u.is_opening ≡ false) × (u.is_open ≡ false)) e
          (closed-IsSound p s, refl, refl)
