-- ===== src/Routing/Upstream.antt =====
-- What the providers, crates/neurust-core/src/provider, need of the HTTP library and of the JSON
-- parser, which are interfaces: a call sends a body to an address.
use neu_rust.Prelude.{◌&&◌, List, Option, ℕ, Bool, leb, ltb}
use neu_rust.Prelude.Text.{Str}

-- The outcome of a call: it fails; the status is no success, with its text and the text of the
-- body; or the body, if it can be parsed.
pub data Sent (Reply : Type 0) : Type 0 where
  not_sent : Str → Sent Reply
  refused : (status : Str) (text : Str) → Sent Reply
  replied : Option Reply → Sent Reply

-- A line that is read from the body of a stream, or the error of reading it.
pub data LineRead : Type 0 where
  read : Str → LineRead
  broken : Str → LineRead

-- The outcome of a call for a stream: the lines up to the end of the body.
pub data SentStream : Type 0 where
  not_streamed : Str → SentStream
  stream_refused : (text : Str) → SentStream
  streamed : List LineRead → SentStream

-- The outcome of the call that checks the health: the number and the text of the status.
pub data Probed : Type 0 where
  probed : (code : ℕ) (status : Str) → Probed
  unreachable : Str → Probed

-- The calls of a provider with the state `S` of the world.
pub record Upstream (S Body Reply : Type 0) : Type 0 where
  pub send : Str → Body → S → Sent Reply × S
  pub send_stream : Str → Body → S → SentStream × S
  pub probe : Str → S → Probed × S

-- `is_success` of a status.
abbrev pub is_success : ℕ → Bool
is_success code = leb 200 code && ltb code 300
