-- ===== src/Endpoints/Tcp/Tests.antt =====
-- Examples for src/src/impl/tcpsvr.h.
use mathlib.Core.Path.{subst}
use mathlib.Core.Bool.{false≢true, true≢false}
use uav_router.Base.{
  ℕ, zero, suc, ◌≤◌, ◌<◌, ◌+◌, Bool, true, false, none, some, List, [], ◌∷◌, ◌≡◌, refl, length, min,
  arith, inl, inr, Bool-cases, ap, ◌⊎◌, ◌==◌, ◌||◌,
}
use uav_router.Endpoints.Os.{
  Os, Call, History, Answer, ok, failed, called, opened, given, closed, created, asked, fired,
  query_size, receive, send, accept,
}
use uav_router.Endpoints.Handle.{Handle, run, ◌>>◌, when, ask, call, event}
use uav_router.Endpoints.Descriptors.{Sound, Idle, Owned, Freed, is_open}
use uav_router.Endpoints.Dispatch.{Events, Handling}
use uav_router.Endpoints.Tcp.Stream.{ServerStream, construct, epoll_in, write, destroy}
use uav_router.Endpoints.Tcp.Stream.Steps.{Step, polled, written, perform_all}
use uav_router.Endpoints.Tcp.Stream.Releases.{steps-Sound}
use uav_router.Endpoints.Tcp.Stream.Once.{steps-Once, Refuses}
use uav_router.Endpoints.Tcp.Stream.Calm.{closes, Quiet}
use uav_router.Endpoints.Tcp.Stream.Drains.{epoll_in-closes, RunsDry, receives, failed≢ok}
use uav_router.Endpoints.Tcp.Stream.Silent.{steps-Silent}
use uav_router.Endpoints.Tcp.Client
use uav_router.Endpoints.Tcp.Client.{Naming}
use uav_router.Endpoints.Tcp.Client.Owned.{SparesClose}
use uav_router.Endpoints.Tcp.Client.Releases
use uav_router.Endpoints.Tcp.Client.Releases.{client-Owned}
use uav_router.Endpoints.Tcp.Server.{Address}
use uav_router.Endpoints.Tcp.Server
use uav_router.Endpoints.Tcp.Server.Holding.{shut_open}
use uav_router.Endpoints.Tcp.Server.Accepts.{server-Sound, Fresh}
use uav_router.Endpoints.Tcp.Server.Accepts

-- One piece of three bytes is there to be read; a send takes two bytes at most. The last argument is
-- an unused descriptor.
abbrev reply : Call → ℕ → ℕ → Answer
reply query_size zero k = ok 3
reply query_size (suc n) k = ok 0
reply (receive n) r k = ok 3
reply (send buf) r k = ok (min 2 (length buf))
reply accept r k = ok k
reply c r k = ok 0

-- A descriptor above those that have been opened.
abbrev unused : History → ℕ
unused [] = 1
unused (opened k ∷ h) = suc (k + unused h)
unused (e ∷ h) = unused h

abbrev answer : History → Answer
answer (called c none ∷ h) = failed 9
answer (called c (some k) ∷ h) = reply c (receives h) (unused h)
answer h = ok 0

instance abbrev pub kernel : Os
kernel = record {
  answer = answer;
  buffer = λ h. 1 ∷ 2 ∷ 3 ∷ [];
  replies = λ h. [];
  ends = λ h. false;
}

abbrev pub readable : Events
readable = record { in_ = true; out = true; pri = false; err = false; hup = true; rdhup = false }

abbrev steps : List Step
steps = written (7 ∷ 8 ∷ 9 ∷ []) ∷ polled 5 readable ∷ []

steps-Sound_example :
    Sound (run (perform_all steps) (construct "a" 4 true []))
    × Idle (run (perform_all steps >> destroy) (construct "a" 4 true []))
steps-Sound_example = steps-Sound "a" 4 true [] steps

kernel-Refuses : Refuses kernel
kernel-Refuses c h = refl

-- The stream before its events.
abbrev stream : Handle ServerStream
stream = construct "a" 4 true []

steps-Once_example :
    (closes (run (perform_all steps) stream).history ≤ 1)
    × ((j : ℕ)
        → (run (perform_all steps) stream).fd ≡ some j
        → closes (run (perform_all steps) stream).history ≡ 0)
    × Quiet (run (perform_all steps) stream).history
steps-Once_example = steps-Once kernel-Refuses "a" 4 true [] steps

kernel_says : (r k : ℕ) → (n : ℕ) × (reply query_size r k ≡ ok n)
kernel_says zero k = (3, refl)
kernel_says (suc r) k = (0, refl)

kernel_dry : (r k : ℕ) → 1 ≤ r → reply query_size r k ≡ ok 0
kernel_dry zero k h = absurd (omega (arith, h))
kernel_dry (suc r) k h = refl

kernel-RunsDry : RunsDry kernel 1
kernel-RunsDry = record {
  says = λ k h. kernel_says (receives h) (unused h);
  dry = λ k h. kernel_dry (receives h) (unused h);
}

epoll_in-closes_example :
    (r : Handling) × ((epoll_in 2 stream).0 ≡ some r) × ((run (epoll_in 2) stream).fd ≡ none)
unfolding construct ◌>>◌ when ask call event
epoll_in-closes_example =
    epoll_in-closes kernel-Refuses 1 kernel-RunsDry 1 stream (λ e. absurd (true≢false e))
      (omega arith)

steps-Silent_example :
    write (5 ∷ []) (run (write (7 ∷ 8 ∷ 9 ∷ []) >> perform_all steps) stream)
    ≡ (ok 0, run (write (7 ∷ 8 ∷ 9 ∷ []) >> perform_all steps) stream)
unfolding construct ◌>>◌ when ask call event
steps-Silent_example = steps-Silent (7 ∷ 8 ∷ 9 ∷ []) stream refl (omega arith) steps (5 ∷ [])

same_or_open : (j k : ℕ) {b : Bool} → ((j == k) || b) ≡ true → (j ≡ k) ⊎ (b ≡ true)
same_or_open j k h = ground arith

value : Answer → ℕ
value (ok n) = n
value (failed e) = e

open-lt-unused : (k : ℕ) (h : History) → is_open k h ≡ true → k < unused h
open-lt-unused k [] o = absurd (false≢true o)
open-lt-unused k (opened j ∷ h) o = elim (same_or_open j k o) [
  | inl e ↦ omega arith
  | inr o' ↦ omega (arith, open-lt-unused k h o')
]
open-lt-unused k (given j ∷ h) o = open-lt-unused k h (shut_open (some j) k h o).0
open-lt-unused k (closed d ∷ h) o = open-lt-unused k h (shut_open d k h o).0
open-lt-unused k (created ∷ h) o = open-lt-unused k h o
open-lt-unused k (called c d ∷ h) o = open-lt-unused k h o
open-lt-unused k (asked r ∷ h) o = open-lt-unused k h o
open-lt-unused k (fired c ∷ h) o = open-lt-unused k h o

unused-Fresh : (h : History) → is_open (unused h) h ≡ false
unused-Fresh h = elim (Bool-cases (is_open (unused h) h)) [
  | inl o ↦ absurd (omega (arith, open-lt-unused (unused h) h o))
  | inr o ↦ o
]

value_eq : {j k : ℕ} → ok j ≡ ok k → j ≡ k
unfolding value
value_eq e = ap value e

kernel-Fresh : Fresh kernel
kernel-Fresh none h k e = absurd (failed≢ok e)
kernel-Fresh (some d) h k e = subst (λ j. is_open j h ≡ false) (value_eq e) (unused-Fresh h)

-- A server that listens, and then has one client.
abbrev server_steps : List Accepts.Step
server_steps =
    Accepts.initialized (λ text port. none) 5760 2 ∷ Accepts.polled 3 readable ∷ Accepts.timed ∷ []

server-Sound_example :
    Sound (run (Accepts.perform_all server_steps) (Server.construct false))
    × Idle (run (Accepts.perform_all server_steps >> Server.destroy) (Server.construct false))
server-Sound_example = server-Sound kernel-Fresh false server_steps

kernel-SparesClose : SparesClose kernel
kernel-SparesClose k e h a = refl

abbrev naming : Naming
naming = record { format = λ a. a.host; service = λ a. ("", "") }

abbrev peer : Address
peer = record { family = 2; host = "10.0.0.1"; port = 5760 }

-- A client that connects, reads, writes, loses its connection and connects again.
abbrev client_steps : List Releases.Step
client_steps =
    Releases.initialized
    ∷ Releases.looked_up (peer ∷ peer ∷ [])
    ∷ Releases.polled 4 readable
    ∷ Releases.written (7 ∷ 8 ∷ [])
    ∷ Releases.timed_out
    ∷ []

client-Owned_example :
    Owned (run (Releases.perform_all naming client_steps) (Client.construct false true []))
    × Freed (
        run
          (Releases.perform_all naming client_steps >> Client.destroy)
          (Client.construct false true []))
client-Owned_example = client-Owned naming kernel-SparesClose false true [] client_steps
