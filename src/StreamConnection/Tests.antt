-- ===== src/StreamConnection/Tests.antt =====
-- network/stream-connection.cc: witnesses.
use polar_express.Base.{
  ◌≡◌, ◌↔◌, refl, [], ◌∷◌, ◌++◌, none, some, Bool, true, false, not, ◌&&◌, ◌||◌, arith, codes, inl,
  inr, ℕ, ◌⊎◌, flatten,
}
use polar_express.StreamConnection.{Stream, new_stream, ConnectionProperties}
use polar_express.StreamConnection.Reads.{
  IsReady, until, start, reading, complete, yield, IsDelivered, HasRead, IsUnsplit, IsRefused,
  last_has, none_has,
}
use polar_express.StreamConnection.Delivery.{read_lem}
use polar_express.StreamConnection.Connects.{IsSound, Answers, attempt, attempt_lem}

abbrev pub properties : ConnectionProperties
properties = record { network_usage_type = 2; hostname = codes "glacier"; protocol = codes "https" }

abbrev closed : Bool → Stream
closed is_secure = new_stream is_secure false properties

abbrev pub connected : Stream
connected = record (closed true) {
  is_open = true;
  has_networking = true;
  read_streambuf = codes "5";
}

pub connected-IsReady : IsReady connected
connected-IsReady = ground arith

abbrev refusing : Answers
refusing = record { unresolved = false; refused = true; untrusted = false }

attempt_lem_example :
    ((attempt (λ n. true) properties refusing (closed true) ≡ none)
      ↔ ((true && not false && true) ≡ true))
    × ((t : Stream)
        → attempt (λ n. true) properties refusing (closed true) ≡ some t
        → IsSound t
          × (t.is_opening ≡ false)
          × (t.is_open ≡ (not false && not true && (not true || not false))))
attempt_lem_example = attempt_lem (λ n. true) properties refusing (closed true) refl refl refl

-- The terminator arrives in one piece with the first byte of what follows it.
delivered :
    IsDelivered
      (until (13 ∷ 10 ∷ []))
      (reading (until (13 ∷ 10 ∷ [])) connected)
      (13 ∷ 10 ∷ 65 ∷ 66 ∷ [])
      false
      ((13 ∷ 10 ∷ 65 ∷ []) ∷ [])
      (66 ∷ [])
unfolding last_has flatten
delivered = record { whole = refl; outcome = inl (refl, refl) }

unsplit :
    IsUnsplit
      (until (13 ∷ 10 ∷ []))
      (reading (until (13 ∷ 10 ∷ [])) connected)
      ((13 ∷ 10 ∷ 65 ∷ []) ∷ [])
unfolding none_has
unsplit = λ h. cc

read_lem_example :
    ((start (λ n. true) (until (13 ∷ 10 ∷ [])) connected
        ≡ inr (reading (until (13 ∷ 10 ∷ [])) connected, true))
      ⊎ ((n : ℕ) × IsRefused (λ n. true) (until (13 ∷ 10 ∷ [])) connected n
          × (start (λ n. true) (until (13 ∷ 10 ∷ [])) connected ≡ inl n)))
    × ((t : Stream) × (complete
            (until (13 ∷ 10 ∷ []))
            false
            (13 ∷ 10 ∷ 65 ∷ [])
            (reading (until (13 ∷ 10 ∷ [])) connected)
          ≡ some t)
        × HasRead connected
            (66 ∷ [])
            (yield (until (13 ∷ 10 ∷ [])) (codes "5" ++ 13 ∷ 10 ∷ 65 ∷ 66 ∷ []))
            t)
unfolding flatten
read_lem_example = read_lem connected-IsReady (λ n. true) (until (13 ∷ 10 ∷ [])) delivered unsplit
