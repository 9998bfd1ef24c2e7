-- ===== src/HttpClientConnection/Chunked.antt =====
-- network/http-client-connection.cc: a whole response in chunks.
use polar_express.Base.{ℕ, Bytes}
use polar_express.Http.{HttpResponse}
use polar_express.HttpClientConnection.{Client, Exception}
use polar_express.HttpClientConnection.Parse.{StatusTools}
use polar_express.HttpClientConnection.Bodies.{IsWhole}

module _ (t : StatusTools) (T : Exception → Type 0) (k : ℕ) (r : HttpResponse)
    (total last rest : Bytes) where
  abbrev P : Client → Bytes → Type 0
  P = IsWhole k r total rest
