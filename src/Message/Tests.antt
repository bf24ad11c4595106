-- ===== src/Message/Tests.antt =====
-- Runs of nsqd/message.go on concrete messages.
use nsq.Base.{
  ℕ, zero, suc, ◌≡◌, refl, ap, sym, arith, true, false, none, List, [], ◌∷◌, ◌++◌, append-nil,
  length,
}
use nsq.Base.Bytes.{ok, err, panic}
use nsq.Message.{Message, pub_delayed}
use nsq.Message.Writer.{Writer, emit}
use nsq.Message.Encode.{cap_attempts, write_header, write_ext_content, internal_write_to, write_to}
use nsq.Message.Decode.{invalid_size, decode_message}
use nsq.Message.Decode.Parts.{Fits}
use nsq.Message.Decode.RoundTrip.{stored, decode_message-write_to, decode_message-panic}
use nsq.Message.Delayed.{
  write_delayed_to, decode_delayed_message, write_delayed_info, write_delayed_data,
  write_delayed_ext,
}
use nsq.Message.Delayed.Stages.{FitsDelayed}
use nsq.Message.Delayed.RoundTrip.{stored_delayed, decode_delayed_message-write_delayed_to}

-- A buffer, which takes every write.
abbrev buffer : Writer
buffer = record {
  Out = List ℕ;
  contents = λ out. out;
  write = λ out p. (out ++ p, length p, false);
  written = λ out p. (p, [], sym (append-nil p), refl, refl, λ e. refl);
}

refused : (p : List ℕ) → true ≡ false → p ≡ []
refused p e = cc

-- A pipe that its reader has closed, which refuses every write.
abbrev closed_pipe : Writer
closed_pipe = record {
  Out = List ℕ;
  contents = λ out. out;
  write = λ out p. (out, 0, true);
  written = λ out p. ([], p, refl, sym (append-nil out), refl, refused p);
}

abbrev plain : Message
plain = record {
  id = 7;
  trace_id = 9;
  body = 104 ∷ 105 ∷ [];
  timestamp = 1500000000;
  attempts = 5000;
  ext_bytes = 123 ∷ 125 ∷ [];
  ext_ver = 2;
  offset = 1024;
  raw_move_size = 36;
  delayed_type = pub_delayed;
  delayed_ts = 1500000060;
  delayed_orig_id = 7;
  delayed_channel = 99 ∷ 104 ∷ [];
  delayed_data = 120 ∷ [];
}

plain-Fits : Fits plain
plain-Fits = record { id = omega arith; trace_id = omega arith; timestamp = omega arith }

plain-FitsDelayed : FitsDelayed plain
plain-FitsDelayed = record {
  header = plain-Fits;
  delayed_type = omega arith;
  delayed_ts = omega arith;
  delayed_orig_id = omega arith;
  delayed_channel = omega arith;
  delayed_data = omega arith;
  offset = omega arith;
  raw_move_size = omega arith;
}

-- The attempts are capped when a message is written.
written_attempts : (write_to buffer plain true []).0.attempts ≡ 4000
unfolding write_to internal_write_to cap_attempts
written_attempts = refl

too_short : decode_message (1 ∷ 2 ∷ 3 ∷ []) true ≡ err invalid_size
unfolding decode_message
too_short = refl

repeat : ℕ → ℕ → List ℕ
repeat zero x = []
repeat (suc n) x = x ∷ repeat n x

length-repeat : (n x : ℕ) → length (repeat n x) ≡ n
unfolding repeat
length-repeat zero x = refl
length-repeat (suc n) x = ap suc (length-repeat n x)

abbrev long : Message
long = record plain { ext_bytes = repeat 65507 32 }

long-Fits : Fits long
long-Fits = record { id = omega arith; trace_id = omega arith; timestamp = omega arith }

write_to-plain : (write_to buffer plain true []).1.error ≡ none
unfolding write_to internal_write_to write_header write_ext_content cap_attempts emit
write_to-plain = refl

write_to-long : (write_to buffer long true []).1.error ≡ none
unfolding write_to internal_write_to write_header write_ext_content cap_attempts emit
write_to-long = refl

write_delayed_to-plain : (write_delayed_to buffer plain true []).1.error ≡ none
unfolding write_delayed_to write_delayed_info write_delayed_data write_delayed_ext write_header
    cap_attempts emit
write_delayed_to-plain = refl

decode_message-write_to_example :
    decode_message (write_to buffer plain true []).1.out true ≡ ok (stored plain true)
decode_message-write_to_example =
    decode_message-write_to buffer plain true true [] plain-Fits (omega arith) (λ e. refl) refl
      write_to-plain

decode_message-panic_example : decode_message (write_to buffer long true []).1.out true ≡ panic
decode_message-panic_example =
    decode_message-panic buffer long [] long-Fits (omega arith)
      (omega (arith, length-repeat 65507 32)) (omega (arith, length-repeat 65507 32)) refl
      write_to-long

decode_delayed_message-write_delayed_to_example :
    decode_delayed_message (write_delayed_to buffer plain true []).1.out true
    ≡ ok (stored_delayed plain true)
decode_delayed_message-write_delayed_to_example =
    decode_delayed_message-write_delayed_to buffer plain true true [] plain-FitsDelayed
      (omega arith) (λ e. refl) refl write_delayed_to-plain
