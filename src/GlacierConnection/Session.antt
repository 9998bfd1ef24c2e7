-- ===== src/GlacierConnection/Session.antt =====
-- network/glacier-connection.cc, Open and Reopen, with base/asio-dispatcher.cc: the service that a
-- connection is opened to, and the keys that its requests are signed with.
use polar_express.Base.{
  ◌≡◌, ◌↔◌, refl, sym, ap, ◌∙◌, ℕ, Bytes, List, [], ◌∷◌, ◌++◌, Option, Bool, true, false, not, ◌&&◌,
  ◌||◌, if◌then◌else◌, codes, join, append_assoc, inl, inr, Bool-cases, arith, ltb,
}
use mathlib.Core.List.{append_cancel_left, append_cancel_right}
use polar_express.Http.{HttpRequest}
use polar_express.AmazonHttpRequest.{Tools}
use polar_express.StreamConnection.{Stream, open_stream, reopen_stream, ConnectionProperties}
use polar_express.HttpClientConnection.{Client}
use polar_express.HttpClientConnection.Handlers.{open_connection, reopen, with_stream}
use polar_express.GlacierConnection.{Settings, service_name}

-- The kinds of use are kInvalid, kUplinkBound, kDownlinkBound and kLocalhost, from 0 on. An invalid
-- one has no strand.
abbrev pub is_network_bound : ℕ → Bool
is_network_bound usage = ltb 0 usage && ltb usage 4

-- The fields that Open sets, and the HTTP connection.
pub record Session : Type 0 where
  pub has_strand : Bool
  pub aws_region_name : Bytes
  pub aws_access_key : Bytes
  pub aws_secret_key : Bytes
  pub http_client_connection : Client

abbrev pub domain : Bytes
domain = codes "amazonaws.com"

abbrev pub keyed : ℕ → Bytes → Bytes → Bytes → Client × Bool → Session × Bool
keyed usage region access secret (c, ok) = (
  record {
    has_strand = is_network_bound usage;
    aws_region_name = region;
    aws_access_key = access;
    aws_secret_key = secret;
    http_client_connection = c;
  },
  ok,
)

unfoldable pub open_session : ℕ → Bytes → Bytes → Bytes → Session → Session × Bool
unfolding open_connection join
open_session usage region access secret a = keyed usage region access secret (
    open_connection is_network_bound usage (join (codes ".") (service_name ∷ region ∷ domain ∷ []))
      a.http_client_connection)

abbrev pub with_client : Session → Client × Bool → Session × Bool
with_client a (c, ok) = (record a { http_client_connection = c }, ok)

unfoldable pub reopen_session : Session → Session × Bool
unfolding reopen
reopen_session a =
    if not a.has_strand
    then (a, false)
    else with_client a (reopen is_network_bound a.http_client_connection)

-- The settings of the operations: requests name the host that the stream was opened to.
abbrev pub settings_of :
    Tools → (HttpRequest → List (Option Bytes) → Bool) → (ℕ → Bytes) → Session → Settings
settings_of tools takes to_string a = record {
  tools = tools;
  send_secure_requests = a.http_client_connection.stream.is_secure;
  hostname = a.http_client_connection.stream.properties.hostname;
  aws_region_name = a.aws_region_name;
  aws_access_key = a.aws_access_key;
  aws_secret_key = a.aws_secret_key;
  takes = takes;
  to_string = to_string;
}

-- The properties that Open asks the stream for.
abbrev asked : ℕ → Bytes → Bool → ConnectionProperties
unfolding join
asked usage region is_secure = record {
  network_usage_type = usage;
  hostname = join (codes ".") (service_name ∷ region ∷ domain ∷ []);
  protocol = if is_secure then codes "https" else codes "http";
}

-- The requests go to the region that they are signed for.
abbrev pub IsMatched : Settings → Type 0
IsMatched s = s.hostname ≡ codes "glacier." ++ s.aws_region_name ++ codes ".amazonaws.com"

abbrev pub stream_of : Session → Stream
stream_of a = a.http_client_connection.stream

-- A connection is free if it is neither open nor being opened.
abbrev pub is_free : Stream → Bool
is_free s = not (s.is_opening || s.is_open)

-- The name of the service in a region.
region_host :
    (region : Bytes)
    → join (codes ".") (service_name ∷ region ∷ domain ∷ [])
      ≡ codes "glacier." ++ region ++ codes ".amazonaws.com"
unfolding join
region_host region = simp append_assoc

region_host-injective :
    (r q : Bytes)
    → codes "glacier." ++ r ++ codes ".amazonaws.com"
      ≡ codes "glacier." ++ q ++ codes ".amazonaws.com"
    → r ≡ q
region_host-injective r q h = append_cancel_right r q (codes ".amazonaws.com") (
    append_cancel_left (codes "glacier.") (r ++ codes ".amazonaws.com")
      (q ++ codes ".amazonaws.com") h)

stream-opened :
    (has_dispatcher : ℕ → Bool) (p : ConnectionProperties) (s : Stream)
    → (open_stream has_dispatcher p s).1 ≡ is_free s && has_dispatcher p.network_usage_type
unfolding open_stream
stream-opened has_dispatcher p s = ground arith

properties-opened :
    (has_dispatcher : ℕ → Bool) (p : ConnectionProperties) (s : Stream)
    → (open_stream has_dispatcher p s).0.properties
      ≡ (if (open_stream has_dispatcher p s).1 then p else s.properties)
unfolding open_stream
properties-opened has_dispatcher p s = ground arith

module _ (tools : Tools) (takes : HttpRequest → List (Option Bytes) → Bool) (to_string : ℕ → Bytes)
    (usage : ℕ) (region access secret : Bytes) (a : Session) where
  abbrev wanted : ConnectionProperties
  wanted = asked usage region (stream_of a).is_secure

  abbrev after : Session × Bool
  after = open_session usage region access secret a

  -- Open succeeds exactly if the connection is neither open nor being opened and the kind of use is
  -- valid. Then the requests will go to the host of the region that they are signed for, by HTTPS
  -- if the connection is secure and by HTTP otherwise.
  pub open_session_lem :
      (after.1 ≡ is_free (stream_of a) && is_network_bound usage)
      × (after.1 ≡ true
          → IsMatched (settings_of tools takes to_string after.0)
            × ((stream_of after.0).properties.protocol
                ≡ (if (stream_of a).is_secure then codes "https" else codes "http")))
  unfolding open_session open_connection
  open_session_lem = (
    stream-opened is_network_bound wanted (stream_of a),
    λ ok.
        let is : (stream_of after.0).properties ≡ wanted =
          properties-opened is_network_bound wanted (stream_of a)
          ∙ ap (λ b. if b then wanted else (stream_of a).properties) ok in
        (ap (λ p. p.hostname) is ∙ region_host region, ap (λ p. p.protocol) is),
  )

  -- A refused Open takes the new region and keys all the same, and keeps the host. If the requests
  -- of a connection went to the region that they were signed for, they do so after the refusal only
  -- if the region is the old one.
  pub refused_open-IsMatched :
      after.1 ≡ false
      → IsMatched (settings_of tools takes to_string a)
      → (after.0.aws_secret_key ≡ secret)
        × (IsMatched (settings_of tools takes to_string after.0) ↔ (region ≡ a.aws_region_name))
  unfolding open_session open_connection
  refused_open-IsMatched refused m =
      let is : (stream_of after.0).properties ≡ (stream_of a).properties =
        properties-opened is_network_bound wanted (stream_of a)
        ∙ ap (λ b. if b then wanted else (stream_of a).properties) refused in
      let host : (stream_of after.0).properties.hostname
          ≡ codes "glacier." ++ a.aws_region_name ++ codes ".amazonaws.com" =
        ap (λ p. p.hostname) is ∙ m in
      (
        refl,
        (
          λ h. region_host-injective region a.aws_region_name (sym h ∙ host),
          λ e. host ∙ ap (λ r. codes "glacier." ++ r ++ codes ".amazonaws.com") (sym e),
        ),
      )

reopened :
    (has_dispatcher : ℕ → Bool) (h : Client) (p : ConnectionProperties)
    → h.stream.properties ≡ p
    → reopen has_dispatcher h ≡ with_stream h (open_stream has_dispatcher p h.stream)
unfolding reopen reopen_stream open_stream
reopened has_dispatcher h p e = rw (← e) (elim (Bool-cases h.stream.is_open) [
  | inl o ↦ elim (Bool-cases h.stream.is_opening) [
    | inl i ↦ rw (o, i) refl
    | inr i ↦ rw (o, i) refl
  ]
  | inr o ↦ elim (Bool-cases h.stream.is_opening) [
    | inl i ↦ rw (o, i) refl
    | inr i ↦ rw (o, i) refl
  ]
])

reopen_session-reopen :
    (c : Session)
    → c.has_strand ≡ true
    → reopen_session c ≡ with_client c (reopen is_network_bound c.http_client_connection)
unfolding reopen_session
reopen_session-reopen c e = rw e refl

-- After an Open that succeeded, and whatever has become of the stream since, Reopen does what the
-- same Open would do again.
pub reopen-open_session :
    (usage : ℕ) (region access secret : Bytes) (a : Session) (s : Stream)
    → let (b, ok) = open_session usage region access secret a in
      ok ≡ true
      → s.properties ≡ (stream_of b).properties
      → s.is_secure ≡ (stream_of a).is_secure
      → let c : Session = record b {
        http_client_connection = record b.http_client_connection { stream = s };
      } in
        reopen_session c ≡ open_session usage region access secret c
unfolding open_session reopen_session open_connection reopen reopen_stream
reopen-open_session usage region access secret a s ok p secure =
    let bound : is_network_bound usage ≡ true = ground (
      arith,
      ok,
      stream-opened is_network_bound (asked usage region (stream_of a).is_secure) (stream_of a),
    ) in
    let is : s.properties ≡ asked usage region s.is_secure =
      p
      ∙ properties-opened is_network_bound (asked usage region (stream_of a).is_secure)
          (stream_of a)
      ∙ ap (λ b. if b then asked usage region (stream_of a).is_secure else (stream_of a).properties)
          ok
      ∙ ap (asked usage region) (sym secure) in
    let c : Session = record (open_session usage region access secret a).0 {
      http_client_connection =
          record (open_session usage region access secret a).0.http_client_connection {
            stream = s;
          };
    } in
    reopen_session-reopen c bound
    ∙ ap (with_client c)
        (reopened is_network_bound c.http_client_connection (asked usage region s.is_secure) is)
