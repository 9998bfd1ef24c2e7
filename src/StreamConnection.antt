-- ===== src/StreamConnection.antt =====
-- network/stream-connection.h and .cc, tcp-connection.cc and ssl-connection.cc: a stream to a peer
-- with at most one read and one write under way.
pub mod Search
pub mod Reads
pub mod Delivery
pub mod Connects
pub mod Tests
use polar_express.Base.{
  ℕ, ◌-◌, zero, suc, Bytes, List, [], ◌∷◌, ◌++◌, Option, none, some, Bool, true, false, not, ◌&&◌,
  ◌||◌, if◌then◌else◌, is_empty, take, drop, length, ◌==◌, ◌⊎◌, inl, inr,
}

pub record ConnectionProperties : Type 0 where
  pub network_usage_type : ℕ
  pub hostname : Bytes
  pub protocol : Bytes

-- `has_networking` says whether the objects of CreateNetworkingObjects exist. `read_data` is the
-- vector that the read under way fills, and `read_buffer` the size of the buffer for ReadSize.
-- A secure stream is an SslConnection and any other a TcpConnection.
pub record Stream : Type 0 where
  pub is_secure : Bool
  pub is_opening : Bool
  pub is_open : Bool
  pub is_writing : Bool
  pub is_reading : Bool
  pub properties : ConnectionProperties
  pub last_write_succeeded : Bool
  pub last_read_succeeded : Bool
  pub has_networking : Bool
  pub write_buffers : List Bytes
  pub read_buffer : Option ℕ
  pub read_streambuf : Bytes
  pub read_data : Bytes

abbrev pub new_stream : Bool → Bool → ConnectionProperties → Stream
new_stream is_secure is_open properties = record {
  is_secure = is_secure;
  is_opening = false;
  is_open = is_open;
  is_writing = false;
  is_reading = false;
  properties = properties;
  last_write_succeeded = false;
  last_read_succeeded = false;
  has_networking = false;
  write_buffers = [];
  read_buffer = none;
  read_streambuf = [];
  read_data = [];
}

-- What a handler of a connection attempt leads to: another attempt, the handshake of SSL, or the
-- call of the callback.
pub data Next : Type 0 where
  connect : Next
  handshake : Next
  call : Next

-- What follows the terminator, if the bytes begin with it.
abbrev pub strip : Bytes → Bytes → Option Bytes
strip [] bs = some bs
strip (t ∷ ts) [] = none
strip (t ∷ ts) (b ∷ bs) = if t == b then strip ts bs else none

abbrev pub prepend : ℕ → Option (Bytes × Bytes) → Option (Bytes × Bytes)
prepend b none = none
prepend b (some (line, rest)) = some (b ∷ line, rest)

-- The search for the terminator: the bytes up to its end, and those behind it.
unfoldable pub cut : Bytes → Bytes → Option (Bytes × Bytes)
cut term [] = none
cut term (b ∷ bs) = elim (strip term (b ∷ bs)) [
  | none ↦ prepend b (cut term bs)
  | some rest ↦ some (term, rest)
]

abbrev pub destroy_networking_objects : Stream → Stream
destroy_networking_objects s = record s { has_networking = false; read_streambuf = [] }

abbrev pub close : Stream → Stream × Bool
close s =
    if s.is_opening
    then (s, false)
    else (record (destroy_networking_objects s) { is_open = false }, true)

-- `has_dispatcher` says for which kinds of use the dispatcher has a strand.
module _ (has_dispatcher : ℕ → Bool) where
  abbrev pub create_networking_objects : ℕ → Stream → Stream × Bool
  create_networking_objects usage s =
      if has_dispatcher usage
      then (
        record s {
          properties = record (s.properties) { network_usage_type = usage };
          last_write_succeeded = false;
          last_read_succeeded = false;
          has_networking = true;
          read_streambuf = [];
        },
        true,
      )
      else (destroy_networking_objects s, false)

  -- A stream that is made of a connected socket has its objects from the start.
  abbrev pub initialize : Stream → Stream
  initialize s =
      if s.is_open then (create_networking_objects s.properties.network_usage_type s).0 else s

  abbrev opened : ConnectionProperties → Stream × Bool → Stream × Bool
  opened p (s, true) = (record s { is_opening = true; properties = p }, true)
  opened p (s, false) = (s, false)

  unfoldable pub open_stream : ConnectionProperties → Stream → Stream × Bool
  open_stream p s =
      if s.is_opening || s.is_open
      then (s, false)
      else opened p (create_networking_objects p.network_usage_type s)

  unfoldable pub reopen_stream : Stream → Stream × Bool
  unfolding open_stream
  reopen_stream s = if s.is_opening || s.is_open then (s, false) else open_stream s.properties s

-- A handler needs the strand and the stream object: `none` is the use of one that is gone.
abbrev pub try_connect : Stream → Option (Stream × Next)
try_connect s = if s.has_networking then some (s, connect) else none

abbrev pub after_connect : Stream → Option (Stream × Next)
after_connect s =
    if s.is_secure then if s.has_networking then some (s, handshake) else none else some (s, call)

unfoldable pub handle_resolve : Bool → Stream → Option (Stream × Next)
handle_resolve err s =
    if err
    then some (destroy_networking_objects (record s { is_opening = false }), call)
    else try_connect s

-- `is_last` says whether no endpoint is left to try.
unfoldable pub handle_connect : Bool → Bool → Stream → Option (Stream × Next)
handle_connect err is_last s =
    if err
    then if is_last
      then after_connect (destroy_networking_objects (record s { is_opening = false }))
      else try_connect (record s { is_opening = false })
    else after_connect (record s { is_opening = false; is_open = true })

unfoldable pub handle_handshake : Bool → Stream → Stream × Next
handle_handshake err s = if err then ((close s).0, call) else (s, call)

-- `none` is a failed assertion.
unfoldable pub write_all : List Bytes → Stream → Option (Stream × Bool)
write_all bufs s =
    if not s.is_open || s.is_writing
    then some (s, false)
    else if is_empty s.write_buffers
    then some (record s { is_writing = true; write_buffers = bufs }, true)
    else none

unfoldable pub handle_write : Bool → Stream → Stream
handle_write err s = record s {
  write_buffers = [];
  is_writing = false;
  last_write_succeeded = not err;
}

unfoldable pub read_until : Stream → Stream × Bool
read_until s =
    if not s.is_open || s.is_reading then (s, false) else (record s { is_reading = true }, true)

-- `can_allocate` says whether a vector of so many bytes can be made. With `inl` the one that the
-- read needs cannot, and its constructor throws.
unfoldable pub read_size : (ℕ → Bool) → ℕ → Stream → ℕ ⊎ (Stream × Bool)
read_size can_allocate n s =
    if not s.is_open || s.is_reading
    then inr (s, false)
    else if can_allocate (n - length (take n s.read_streambuf))
    then inr (
      record s {
        is_reading = true;
        read_data = take n s.read_streambuf;
        read_streambuf = drop n s.read_streambuf;
        read_buffer = some (n - length (take n s.read_streambuf));
      },
      true,
    )
    else inl (n - length (take n s.read_streambuf))

-- `received` are the bytes that asio has put into the buffer.
unfoldable pub handle_read_size : Bool → Bytes → Stream → Stream
handle_read_size err received s = record s {
  read_data = s.read_data ++ received;
  read_buffer = none;
  is_reading = false;
  last_read_succeeded = not err;
}

abbrev taken : Option (Bytes × Bytes) → Bytes → Stream → Stream
taken none buf s = record s { read_data = []; read_streambuf = buf }
taken (some (line, rest)) buf s = record s { read_data = line; read_streambuf = rest }

-- `arrived` are the bytes that asio has added to the stream's buffer.
unfoldable pub handle_read_until : Bytes → Bool → Bytes → Stream → Option Stream
unfolding cut
handle_read_until term err arrived s =
    if s.has_networking
    then some
        (record (taken (cut term (s.read_streambuf ++ arrived)) (s.read_streambuf ++ arrived) s) {
          is_reading = false;
          last_read_succeeded = not err;
        })
    else none
