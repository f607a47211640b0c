-- ===== src/Channel/Answers.antt =====
-- Who is told what an answer says.
use meowith.Base.{ℕ, ◌≡◌, refl, ap, sym, ◌∙◌, Bool, true, Option, none, some, [], ◌∷◌}
use meowith.Base.Result.{ok}
use meowith.Wire.Message.{Sent, packet_type, read_payload}
use meowith.Wire.Payload.{delivered, IsCarried, read_payload-payload}
use meowith.Wire.Stream.{MdsftpRawPacket}
use meowith.Wire.Delivery.{raw_packet}
use meowith.Channel.Pending.{
  Kind, lock, reserve, put, query, commit, InternalMdsftpChannel, sender, set_sender, request_kind,
  response_kind, answer_of, read_answer, tell, Answer, call, await_answer, handle_as, handle_packet,
  quiet, panic_or,
}

sender-set_sender :
    (k : Kind) (tx : Option ℕ) (c : InternalMdsftpChannel) → sender k (set_sender k tx c) ≡ tx
sender-set_sender lock tx c = refl
sender-set_sender reserve tx c = refl
sender-set_sender put tx c = refl
sender-set_sender query tx c = refl
sender-set_sender commit tx c = refl

set_sender-set_sender :
    (k : Kind) (tx ty : Option ℕ) (c : InternalMdsftpChannel)
    → set_sender k ty (set_sender k tx c) ≡ set_sender k ty c
set_sender-set_sender lock tx ty c = refl
set_sender-set_sender reserve tx ty c = refl
set_sender-set_sender put tx ty c = refl
set_sender-set_sender query tx ty c = refl
set_sender-set_sender commit tx ty c = refl

set_sender_same :
    (k : Kind) (tx : Option ℕ) (c : InternalMdsftpChannel) → sender k c ≡ tx → set_sender k tx c ≡ c
set_sender_same lock tx c e = λ i. record c { lock_sender = sym e i }
set_sender_same reserve tx c e = λ i. record c { reserve_sender = sym e i }
set_sender_same put tx c e = λ i. record c { put_sender = sym e i }
set_sender_same query tx c e = λ i. record c { query_sender = sym e i }
set_sender_same commit tx c e = λ i. record c { commit_sender = sym e i }

-- A request is made, and the other end answers it by a call of a method that responds to requests
-- of its kind, with arguments that fit their types: the task that made the request, if it still
-- waits, is told what the answer says, no other task is told anything, and the channel waits for
-- requests of the other kinds as before and for none of this kind.
pub handle_packet-call :
    (waits : ℕ → Bool) (task : ℕ) (s r : Sent) (c : InternalMdsftpChannel) (k : Kind) (a : Answer)
    → request_kind s ≡ some k
    → response_kind (packet_type r) ≡ some k
    → answer_of (delivered r) ≡ some a
    → IsCarried r
    → waits task ≡ true
    → handle_packet waits (raw_packet (c.id, r)) (call task s c).0
      ≡ some
          (ok (record { channel = set_sender k none c; told = (task, a) ∷ []; forwarded = none }))
unfolding handle_packet call
handle_packet-call waits task s r c k a req res ans fits w =
    ap (λ o. handle_packet waits (raw_packet (c.id, r)) (await_answer task o c).0) req
    ∙ (λ i. handle_as waits (res i) (read_payload-payload r fits i) (set_sender k (some task) c))
    ∙ (λ i. panic_or (
        tell waits (sender-set_sender k (some task) c i) (ans i)
          (set_sender-set_sender k (some task) none c i)))
    ∙ rw w refl

-- An answer that no task waits for changes nothing.
handle_packet_unexpected :
    (waits : ℕ → Bool) (p : MdsftpRawPacket) (c : InternalMdsftpChannel) (k : Kind)
    → response_kind p.packet_type ≡ some k
    → sender k c ≡ none
    → handle_packet waits p c ≡ some (ok (quiet c))
unfolding handle_packet
handle_packet_unexpected waits p c k res e =
    ap (λ o. handle_as waits o (read_payload p.packet_type p.payload) c) res ∙ λ i. panic_or (
      tell waits (e i) (read_answer (read_payload p.packet_type p.payload))
        (set_sender_same k none c e i))
