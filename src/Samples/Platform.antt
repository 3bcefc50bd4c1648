-- ===== src/Samples/Platform.antt =====
-- A platform for the tests of sessions: random bytes that are all alike, and numbered random numbers.
use hi_rodrop.Prelude.{ℕ, ◌%◌, ◌^◌, arith, replicate, length-replicate, none, []}
use hi_rodrop.Prelude.Bytes.{Bytes}
use hi_rodrop.Crypto.Keys.{SessionKeys}
use hi_rodrop.Crypto.Channel.{new_channel}
use hi_rodrop.Transport.{ErrorKind, Stream}
use hi_rodrop.Session.{Random, Platform, Endpoint}
use hi_rodrop.Samples.Serial.{codec}
use hi_rodrop.Samples.Sharing.{sharing_frame}
use hi_rodrop.Samples.Primitives.{sample_primitives}
use hi_rodrop.Samples.Messages.{sample_codecs}

abbrev pub sample_random : Random
sample_random = record {
  bytes = λ n size. replicate size 3;
  length-bytes = λ n size. length-replicate size 3;
  u64 = λ n. n % (2 ^ 64);
  u64-lt = λ n. omega arith;
}

abbrev pub sample_platform : Platform ℕ ℕ
sample_platform = record {
  primitives = sample_primitives;
  codecs = sample_codecs;
  sharing_frame = codec sharing_frame;
  random = sample_random;
}

-- Keys that are the same in both directions, so that either side takes them.
abbrev pub sample_keys : SessionKeys
sample_keys = record {
  decrypt_key = replicate 32 1;
  receive_hmac_key = replicate 32 1;
  encrypt_key = replicate 32 1;
  send_hmac_key = replicate 32 1;
}

abbrev pub stream_of : Bytes → Stream
stream_of input = record {
  input = input;
  ending = ErrorKind.unexpected_eof;
  output = [];
  write_fault = none;
}

abbrev pub endpoint_of : Bytes → Endpoint
endpoint_of input = record {
  stream = stream_of input;
  channel = new_channel sample_keys;
  drawn = 0;
}
