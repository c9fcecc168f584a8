-- ===== src/Rpc/Calls/Wires.antt =====
-- The codecs of the wires carry the messages of a dialogue.
use rsbinder.Prelude.{ℕ, ◌≤◌, List, length}
use rsbinder.Status.{StatusCode, Errnos}
use rsbinder.Rpc.Result.{ErrorKind}
use rsbinder.Rpc.Wire.Readers.{WireMessage, max_frame_len}
use rsbinder.Rpc.Wire.R34
use rsbinder.Rpc.Wire.RoundTrip
use rsbinder.Rpc.Wire.Android13Codec
use rsbinder.Rpc.Wire.RoundTrip13
use rsbinder.Rpc.Calls.{Host}
use rsbinder.Rpc.Calls.Dialogue.{IsCarried}

module _ (errnos : Errnos) (io_status : ErrorKind → StatusCode) where
  abbrev pub r34_host : Host
  r34_host = record {
    errnos = errnos;
    encode = RoundTrip.encode_message;
    decode_message = R34.decode_message;
    io_status = io_status;
  }

  abbrev pub android13_host : ℕ → Host
  android13_host version = record {
    errnos = errnos;
    encode = RoundTrip13.encode_message version;
    decode_message = Android13Codec.decode_message version;
    io_status = io_status;
  }

  pub r34_host-IsCarried :
      (m : WireMessage)
      → RoundTrip.IsMessage m
      → length (RoundTrip.body_of m) ≤ max_frame_len
      → (f : List ℕ) × IsCarried r34_host m f
  r34_host-IsCarried m v fits = let p = (RoundTrip.decode-encode m v).0 fits in (p.0, (p.1, p.2))

  pub android13_host-IsCarried :
      (version : ℕ) (m : WireMessage)
      → RoundTrip13.IsMessage version m
      → length (RoundTrip13.body_of version m) ≤ max_frame_len
      → (f : List ℕ) × IsCarried (android13_host version) m f
  android13_host-IsCarried version m v fits =
      let p = (RoundTrip13.decode-encode13 version m v).0 fits in (p.0, (p.1, p.2))
