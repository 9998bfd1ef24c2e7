-- ===== src/StreamConnection/Reads.antt =====
-- network/stream-connection.cc: reads against the sequence of bytes that the peer sends.
use polar_express.Base.{
  ◌≡◌, ◌⊎◌, refl, ℕ, ◌-◌, ◌<◌, Bytes, List, [], ◌∷◌, ◌++◌, Option, none, some, Bool, true, false,
  not, length, take, drop, leb, flatten, inl, inr, Bool-cases, if◌then◌else◌,
}
use polar_express.StreamConnection.{
  Stream, cut, read_until, read_size, handle_read_until, handle_read_size,
}

pub data Read : Type 0 where
  until : Bytes → Read
  size : ℕ → Read

pub record IsReady (s : Stream) : Type 0 where
  pub open_lem : s.is_open ≡ true
  pub idle : s.is_reading ≡ false
  pub networked : s.has_networking ≡ true
  pub settled : s.is_opening ≡ false

unfoldable pub start : (ℕ → Bool) → Read → Stream → ℕ ⊎ (Stream × Bool)
unfolding read_until read_size
start can_allocate (until term) s = inr (read_until s)
start can_allocate (size n) s = read_size can_allocate n s

unfoldable pub complete : Read → Bool → Bytes → Stream → Option Stream
unfolding handle_read_until handle_read_size
complete (until term) err arrived s = handle_read_until term err arrived s
complete (size n) err arrived s = some (handle_read_size err arrived s)

abbrev pub found : Bytes → Option (Bytes × Bytes) → Bool × Bytes × Bytes
found unread none = (false, [], unread)
found unread (some (line, rest)) = (true, line, rest)

-- What a read yields of all the bytes that a peer sends: success, the data and the bytes left.
unfoldable pub yield : Read → Bytes → Bool × Bytes × Bytes
unfolding cut
yield (until term) unread = found unread (cut term unread)
yield (size n) unread = (leb n (length unread), take n unread, drop n unread)

abbrev pub has : Option (Bytes × Bytes) → Bool
has none = false
has (some found) = true

-- The match condition of ReadUntil gives the end of what it searched when there is no match, so that
-- asio calls it next with only the piece that has arrived since. `last_has` says that it found the
-- terminator in the last of the pieces, the first of which is the buffer, and in none before.
unfoldable pub last_has : Bytes → Bytes → List Bytes → Bool
unfolding cut
last_has term piece [] = has (cut term piece)
last_has term piece (p ∷ ps) =
    let rest = last_has term p ps in if has (cut term piece) then false else rest

unfoldable pub none_has : Bytes → Bytes → List Bytes → Bool
unfolding cut
none_has term piece [] = not (has (cut term piece))
none_has term piece (p ∷ ps) =
    let rest = none_has term p ps in if has (cut term piece) then false else rest

abbrev pub IsEnough : Read → Stream → List Bytes → Type 0
IsEnough (until term) s pieces = last_has term s.read_streambuf pieces ≡ true
IsEnough (size n) s pieces = s.read_buffer ≡ some (length (flatten pieces))

abbrev pub IsLacking : Read → Stream → List Bytes → Type 0
IsLacking (until term) s pieces = none_has term s.read_streambuf pieces ≡ true
IsLacking (size n) s pieces = (m : ℕ) × (s.read_buffer ≡ some m) × (length (flatten pieces) < m)

-- What asio promises of a read. It takes pieces off the bytes that the peer has still to send until
-- there are enough, and fails if the peer has closed the connection before. Behind a terminator
-- it may have taken any number of bytes.
pub record IsDelivered (q : Read) (s : Stream) (incoming : Bytes) (err : Bool) (pieces : List Bytes)
    (left : Bytes) : Type 0 where
  pub whole : incoming ≡ flatten pieces ++ left
  pub outcome :
      ((err ≡ false) × IsEnough q s pieces) ⊎ ((err ≡ true) × (left ≡ []) × IsLacking q s pieces)

-- No terminator arrives in parts: if one is in the bytes then it is in one of the pieces.
abbrev pub IsUnsplit : Read → Stream → List Bytes → Type 0
IsUnsplit (until term) s pieces =
    none_has term s.read_streambuf pieces ≡ true
    → cut term (s.read_streambuf ++ flatten pieces) ≡ none
IsUnsplit (size n) s pieces = Unit

-- A stream after a read.
pub record HasRead (s : Stream) (left : Bytes) (result : Bool × Bytes × Bytes) (t : Stream)
    : Type 0 where
  pub ready : IsReady t
  pub secure : t.is_secure ≡ s.is_secure
  pub ok : t.last_read_succeeded ≡ result.0
  pub got : t.read_data ≡ result.1
  pub unread : t.read_streambuf ++ left ≡ result.2

-- A stream while it reads.
abbrev pub reading : Read → Stream → Stream
reading (until term) s = record s { is_reading = true }
reading (size n) s = record s {
  is_reading = true;
  read_data = take n s.read_streambuf;
  read_streambuf = drop n s.read_streambuf;
  read_buffer = some (n - length (take n s.read_streambuf));
}

-- The read of `n` bytes more than are in the buffer throws.
abbrev pub IsRefused : (ℕ → Bool) → Read → Stream → ℕ → Type 0
IsRefused can_allocate (until term) s n = ⊥
IsRefused can_allocate (size m) s n =
    (n ≡ m - length (take m s.read_streambuf)) × (can_allocate n ≡ false)

pub start-reading :
    (can_allocate : ℕ → Bool) (q : Read) (s : Stream)
    → IsReady s
    → (start can_allocate q s ≡ inr (reading q s, true))
      ⊎ ((n : ℕ) × IsRefused can_allocate q s n × (start can_allocate q s ≡ inl n))
unfolding start read_until read_size
start-reading can_allocate (until term) s r = inl (rw (r.open_lem, r.idle) refl)
start-reading can_allocate (size n) s r =
    elim (Bool-cases (can_allocate (n - length (take n s.read_streambuf)))) [
      | inl e ↦ rw (r.open_lem, r.idle, e) (inl refl)
      | inr e ↦ rw (r.open_lem, r.idle, e) (inr (_, (refl, e), refl))
    ]
