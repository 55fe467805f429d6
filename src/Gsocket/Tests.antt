-- ===== src/Gsocket/Tests.antt =====
-- Runs of the calls at concrete inputs, and instances of the theorems.
use aegir.Prelude.{
  ℕ, ℤ, Option, pos, true, false, none, some, List, [], ◌∷◌, replicate, ◌≡◌, refl, sym, ◌∙◌, arith,
  if◌then◌else◌, ◌==◌, set, Bool, leb, ◌++◌, length,
}
use aegir.Prelude.Loop.{Ends, Allows}
use aegir.Gsocket.Types.{fail, put, State, SockaddrIn, ak_sw16}
use aegir.Gsocket.Types.Order.{IsInet}
use aegir.Gsocket.Calls.Names.{getpeername-connect}
use aegir.Gsocket.Netdb.Services.{by_port-by_name}
use aegir.Gsocket.Toy.{Net, send_if, toy, start}
use aegir.Gsocket.Table.{ak_alloc, get_sock}
use aegir.Gsocket.Table.Laws.{IsOpen, Allocated, ak_alloc-Allocated}
use aegir.Gsocket.Calls.{install, socket, ak_auto_bind, connect, getpeername}
use aegir.Gsocket.Signal.{create_signalling_fds, close_signalling_fd, write_signalling_fd}
use aegir.Gsocket.Signal.Pair.{IsPair, Drains, writes, Drains-writes, write-close}
use aegir.Gsocket.Errno.{epipe}
use aegir.Gsocket.Stream.{accept}
use aegir.Gsocket.Stream.Accepting.{IsAcceptor, accept-Owns}
use aegir.Gsocket.Calls.{gnat_socket_close}
use aegir.Gsocket.Calls.Handles.{IsIssuer, Owns}
use aegir.Gsocket.Calls.Handles.Opening.{socket-Owns}
use aegir.Gsocket.Calls.Handles.Closing.{gnat_socket_close-Owns}
use aegir.Gsocket.Send.{ak_send}
use aegir.Gsocket.Send.Whole.{IsStream, Sent, waits, breaks, ak_send-Sent}
use aegir.Gsocket.Options.{setsockopt, getsockopt, replace_opt}
use aegir.Gsocket.Options.RoundTrip.{same_key, getsockopt-setsockopt}
use aegir.Gsocket.Ready.{
  FdSets, PollFd, requested, ready_of, ak_ready, select_fd, select_scan, select, poll,
}
use aegir.Gsocket.Ready.Clock.{IsClock}
use aegir.Gsocket.Ready.Scan.{look}
use aegir.Gsocket.Ready.Select.{select_deaf}
use aegir.Gsocket.Ready.Report.{state_at, reports, Reported, select_at_once}
use aegir.Gsocket.Ready.Waits.{InTime, select_returns}
use aegir.Gsocket.Ready.Poll.{Polled, poll_returns}
use aegir.Gsocket.Dotted.{inet_ntop, inet_pton, ak_parse_dotted}
use aegir.Gsocket.Dotted.RoundTrip.{inet_pton-inet_ntop}
use aegir.Gsocket.Dotted.Bounds.{FitsDst, ak_parse_dotted-FitsDst}
use aegir.Gsocket.Netdb.{codes, svent, same_text, by_name, by_port, ak_services}
use aegir.Gsocket.Addrinfo.{getaddrinfo, freeaddrinfo}
use aegir.Gsocket.Addrinfo.Heap.{Accounts, freeaddrinfo-getaddrinfo}
use aegir.Gsocket.Table.{ak_get}
use aegir.Gsocket.FdSet.{FdSet, ak_isset, ak_setbit, ak_clrbit, get_socket_from_set, last_from}
use aegir.Gsocket.FdSet.Laws.{
  IsFdSet, ak_isset_after, IsLast, last_from-IsLast, get_socket_from_set_lem,
}

abbrev opened : State Net
opened = (socket (pos 2) (pos 2) (pos 0) start).1

first_socket : (socket (pos 2) (pos 2) (pos 0) start).0 ≡ pos 3
unfolding socket install ak_alloc
first_socket = refl

-- The set of the descriptors 3 and 9.
abbrev set_3_9 : FdSet
set_3_9 = 8 ∷ 2 ∷ replicate 30 0

set_3_9-IsFdSet : IsFdSet set_3_9
set_3_9-IsFdSet = omega arith

ak_alloc-Allocated_example : Allocated start (ak_alloc start)
ak_alloc-Allocated_example = ak_alloc-Allocated start

ak_isset_after_example :
    (ak_isset (ak_setbit set_3_9 4) 3 ≡ (if 3 == 4 then true else ak_isset set_3_9 3))
    × (ak_isset (ak_clrbit set_3_9 4) 3 ≡ (if 3 == 4 then false else ak_isset set_3_9 3))
ak_isset_after_example = ak_isset_after set_3_9 4 3 set_3_9-IsFdSet (omega arith)

get_socket_from_set_lem_example :
    let (sk, last', s') = get_socket_from_set set_3_9 9 in
    (sk ≡ 9)
    × IsFdSet s'
    × ((j : ℕ) → ak_isset s' j ≡ (if j == 9 then false else ak_isset set_3_9 j))
    × IsLast s' 255 last'
unfolding last_from ak_isset
get_socket_from_set_lem_example =
    get_socket_from_set_lem set_3_9 9 set_3_9-IsFdSet (last_from-IsLast set_3_9 255)

toy-IsClock : IsClock Net
toy-IsClock = record { sleeps = λ d w. ground arith; runs = λ h w. omega arith }

-- A signalling pair, 3 and 4, that was never written to.
abbrev pair : State Net
pair = (create_signalling_fds start).2

abbrev read_3_9 : FdSets
read_3_9 = record { readfds = some set_3_9; writefds = none; exceptfds = none }

-- Descriptor 4 is the write end.
abbrev write_4 : FdSets
write_4 = record { readfds = none; writefds = some (set (replicate 32 0) 0 16); exceptfds = none }

select_deaf_example :
    Allows
      (λ r (t : FdSets × State Net). r ≡ 0)
      (select 40 (pos 10) read_3_9 (some (0, 20000)) pair)
unfolding create_signalling_fds ak_alloc select_scan select_fd ak_ready ready_of ak_get ak_isset
    ak_clrbit
select_deaf_example =
    select_deaf 40 (pos 10) read_3_9 (some (0, 20000)) pair (set_3_9-IsFdSet, tt, tt) refl

select_at_once_example : Ends (Reported 10 write_4 pair) (select 40 (pos 10) write_4 none pair)
unfolding reports state_at create_signalling_fds ak_alloc ak_ready ready_of ak_get ak_isset
    requested look
select_at_once_example =
    select_at_once 39 (pos 10) write_4 none pair (tt, omega arith, tt) (omega arith)

select_returns_example : Ends (InTime 200100) (select 40 (pos 10) read_3_9 (some (0, 20000)) start)
select_returns_example =
    select_returns toy-IsClock 40 (pos 10) read_3_9 0 20000 start (omega arith) (omega arith)

abbrev poll_3 : List PollFd
poll_3 = record { fd = pos 3; events = 1; revents = 0 } ∷ []

poll_returns_example : Ends (Polled poll_3 pair 200100) (poll 40 poll_3 (pos 20) pair)
unfolding create_signalling_fds ak_alloc
poll_returns_example = poll_returns toy-IsClock 40 poll_3 20 pair (omega arith) (omega arith)

-- All three sets ask for descriptor 4.
abbrev all_4 : FdSets
all_4 =
    let four = set (replicate 32 0) 0 16 in
    record { readfds = some four; writefds = some four; exceptfds = some four }

inet_pton-inet_ntop_example :
    (text : List ℕ) × (inet_ntop (pos 2) (10 ∷ 0 ∷ 2 ∷ 15 ∷ []) 16 start ≡ (some text, start))
    × (inet_pton (pos 2) text start ≡ (pos 1, 10 ∷ 0 ∷ 2 ∷ 15 ∷ [], start))
inet_pton-inet_ntop_example =
    inet_pton-inet_ntop 10 0 2 15 16 start (omega arith) (omega arith) (omega arith) (omega arith)
      (omega arith) (omega arith)

ak_parse_dotted-FitsDst_example : FitsDst (ak_parse_dotted (codes "1.2.3.4.5"))
ak_parse_dotted-FitsDst_example = ak_parse_dotted-FitsDst (codes "1.2.3.4.5")

freeaddrinfo-getaddrinfo_example :
    let out = getaddrinfo (some (codes "10.0.2.2")) (some (codes "http")) 0 0 0 start in
    Accounts 0 out × ((freeaddrinfo out.1 out.2).live ≡ 0)
freeaddrinfo-getaddrinfo_example =
    freeaddrinfo-getaddrinfo (some (codes "10.0.2.2")) (some (codes "http")) 0 0 0 start

-- 127.0.0.1, port 80.
abbrev web : SockaddrIn
web = record { sin_family = 2; sin_port = 20480; sin_addr = 127 ∷ 0 ∷ 0 ∷ 1 ∷ [] }

web-IsInet : IsInet web
web-IsInet = record {
  family = refl;
  port = omega arith;
  b0 = 127;
  b1 = 0;
  b2 = 0;
  b3 = 1;
  addr = refl;
  bytes = omega arith;
}

opened-IsOpen : IsOpen opened 3
unfolding socket install ak_alloc
opened-IsOpen = record { lower = omega arith; upper = omega arith; used = refl; kind = refl }

getpeername-connect_example :
    let s' = (connect (pos 3) web opened).1 in getpeername (pos 3) s' ≡ (pos 0, some web, s')
unfolding socket install ak_alloc connect get_sock ak_auto_bind
getpeername-connect_example = getpeername-connect (pos 3) web opened web-IsInet refl

by_port-by_name_example :
    (by_port (pos 80) ak_services ≡ some (svent "http" 80))
    × (by_port (pos (ak_sw16 80)) ak_services ≡ some (svent "http" 80))
unfolding by_name same_text
by_port-by_name_example = by_port-by_name (codes "http") (svent "http" 80) refl

pair-IsPair : IsPair pair 3 4 0
unfolding create_signalling_fds ak_alloc
pair-IsPair = record {
  lower_r = omega arith;
  upper_r = omega arith;
  lower_w = omega arith;
  upper_w = omega arith;
  distinct = omega arith;
  used_r = refl;
  used_w = refl;
  kind_r = refl;
  kind_w = refl;
  partner = refl;
  count = refl;
}

Drains-writes_example : Drains 2 3 (writes 2 4 pair)
Drains-writes_example = Drains-writes 2 pair 3 4 pair-IsPair (omega arith)

write-close_example :
    let closed = close_signalling_fd (pos 3) pair in
    (write_signalling_fd (pos 4) closed ≡ fail epipe closed)
    × ((write_signalling_fd (pos 4) (ak_alloc closed).1).0 ≡ pos 1)
unfolding create_signalling_fds ak_alloc close_signalling_fd ak_get
write-close_example = write-close pair 3 4 0 pair-IsPair refl

getsockopt-setsockopt_example :
    let t = (setsockopt (pos 3) (pos 6) (pos 1) (pos 7) opened).1 in
    getsockopt (pos 3) (pos 6) (pos 1) t ≡ (
      pos 0,
      if same_key (pos 6) (pos 1) (pos 6) (pos 1)
          then some (pos 7)
          else (getsockopt (pos 3) (pos 6) (pos 1) opened).1,
      t,
    )
unfolding socket install ak_alloc setsockopt get_sock replace_opt
getsockopt-setsockopt_example =
    getsockopt-setsockopt (pos 3) (pos 6) (pos 1) (pos 7) (pos 6) (pos 1) opened refl refl

toy_sends :
    (d : Bool) (bytes : List ℕ) (w : Net)
    → ((send_if d bytes w).0 == 0 ≡ true → (send_if d bytes w).1.outbox ≡ w.outbox ++ bytes)
      × (waits (send_if d bytes w).0 ≡ true → (send_if d bytes w).1.outbox ≡ w.outbox)
      × (breaks (send_if d bytes w).0 ≡ false)
toy_sends true bytes w = ((λ e. refl), (λ e. ground arith), refl)
toy_sends false bytes w = ((λ e. ground arith), (λ e. refl), refl)

toy-IsStream : (h : ℕ) → IsStream Net h (λ w. w.outbox)
toy-IsStream h = record {
  polls = λ w. refl;
  accepts = λ bytes w e. (toy_sends (leb (length w.outbox) 1024) bytes w).0 e;
  refuses = λ bytes w e. (toy_sends (leb (length w.outbox) 1024) bytes w).1 e;
  fails = λ bytes w e. ground (arith, e, (toy_sends (leb (length w.outbox) 1024) bytes w).2);
}

abbrev stream : State Net
stream = (socket (pos 2) (pos 1) (pos 0) start).1

-- A nonblocking stream, which is refused after two chunks.
abbrev eager : State Net
eager = put 3 (record (stream.ak_fds 3) { nonblock = true }) stream

ak_send-Sent_example :
    Ends
      (Sent (eager.ak_fds 3).handle (λ (w : Net). w.outbox) (replicate 3000 7) [])
      (ak_send 3001 3 (replicate 3000 7) 0 0 eager)
unfolding socket install ak_alloc
ak_send-Sent_example =
    ak_send-Sent (λ (w : Net). w.outbox) 3001 3 (replicate 3000 7) 0 0 eager
      (toy-IsStream (eager.ak_fds 3).handle) refl refl (omega arith)

toy-IsIssuer : IsIssuer Net (λ h w. w.in_use h)
toy-IsIssuer = record {
  attaches = λ h k w. refl;
  closes = λ h k w. refl;
  issues = λ p k w e. ground arith;
  denies = λ p k w n. ground arith;
}

start-Owns : Owns (λ h (w : Net). w.in_use h) start
start-Owns = record {
  owner = λ h l. absurd (contradictory l);
  held = λ i o. absurd (contradictory o.used);
  once = λ i j o p q. absurd (contradictory o.used);
}
  where
    contradictory : false ≡ true → ⊥
    contradictory e = ground arith

socket-Owns_example : Owns (λ h (w : Net). w.in_use h) (socket (pos 2) (pos 2) (pos 0) start).1
socket-Owns_example =
    socket-Owns (λ h (w : Net). w.in_use h) toy-IsIssuer (pos 2) (pos 2) (pos 0) start start-Owns

gnat_socket_close-Owns_example :
    Owns (λ h (w : Net). w.in_use h) (gnat_socket_close (pos 3) opened).1
gnat_socket_close-Owns_example =
    gnat_socket_close-Owns (λ h (w : Net). w.in_use h) toy-IsIssuer (pos 3) opened
      (socket-Owns (λ h (w : Net). w.in_use h) toy-IsIssuer (pos 2) (pos 2) (pos 0) start
        start-Owns)

-- A listening socket at the descriptor 3.
abbrev server : State Net
server = put 3 (record (stream.ak_fds 3) { listening = true }) stream

toy-IsAcceptor : IsAcceptor Net (λ h w. w.in_use h)
toy-IsAcceptor = record {
  issuer = toy-IsIssuer;
  accepts = λ h k w e. ground arith;
  idles = λ h k w n. ground arith;
  sleeps = λ d k w. refl;
}

stream-Owns : Owns (λ h (w : Net). w.in_use h) stream
stream-Owns =
    socket-Owns (λ h (w : Net). w.in_use h) toy-IsIssuer (pos 2) (pos 1) (pos 0) start start-Owns

server-IsOpen : IsOpen server 3
unfolding socket install ak_alloc
server-IsOpen = record { lower = omega arith; upper = omega arith; used = refl; kind = refl }

only_3 : (i : ℕ) → IsOpen server i → i ≡ 3
unfolding socket install ak_alloc
only_3 i o = ground (arith, o.used)

only_1 : (h : ℕ) → server.net.in_use h ≡ true → h ≡ 1
unfolding socket install ak_alloc
only_1 h e = ground (arith, e)

server-Owns : Owns (λ h (w : Net). w.in_use h) server
unfolding socket install ak_alloc
server-Owns = record {
  owner = λ h l. (3, server-IsOpen, sym (only_1 h l));
  held = λ i o. rw (only_3 i o) refl;
  once = λ i j o p q. only_3 i o ∙ sym (only_3 j p);
}

accept-Owns_example :
    Allows
      (λ (o : ℤ × Option SockaddrIn) t. Owns (λ h (w : Net). w.in_use h) t)
      (accept 10 (pos 3) server)
accept-Owns_example =
    accept-Owns (λ h (w : Net). w.in_use h) toy-IsAcceptor 10 (pos 3) server server-Owns
