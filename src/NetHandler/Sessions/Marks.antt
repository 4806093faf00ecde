-- ===== src/NetHandler/Sessions/Marks.antt =====
-- A client is marked as connected exactly while the thread of its connection runs.
use c_runtime.Prelude.{◌≡◌, refl, ap, ◌∙◌, arith, inl, inr}
use c_runtime.Prelude.{
  Bool, true, false, not, ◌&&◌, ◌||◌, Option, none, some, Bool-cases, Option-cases, ◌==◌,
}
use c_runtime.RuntimeUtil.Types.{RobotDescField, dawn, shepherd, connected, disconnected}
use c_runtime.Shm.Types.{Shm}
use c_runtime.Shm.Start.{start_shm, start_fields}
use c_runtime.Shm.Inputs.{robot_desc_read, robot_desc_write, is_disconnected}
use c_runtime.NetHandler.Protocol.{pos_left, pos_right, pos_other}
use c_runtime.NetHandler.TcpConn.{tcp_conn_cleanup, recv_challenge, recv_start_pos}
use c_runtime.NetHandler.TcpConn.Handlers.{
  not_unpacked, refused, by_dawn, by_shepherd, no_state, ivy, dry, cold, Handled, by_challenge,
  by_run_mode, by_start_pos, by_dev_data, by_game_state, by_none,
}
use c_runtime.NetHandler.TcpConn.Guards.{recv_dev_data-fields}
use c_runtime.NetHandler.Sessions.{
  TcpConn, Clients, Setup, IdRead, put_thread, is_client, start_tcp_conn, end_thread, stop_tcp_conn,
  reconnect, accept_round, determine_client,
}

unfoldable pub Marked : RobotDescField → Option TcpConn → Shm → Type 0
Marked client none m = m.fields client ≡ disconnected
Marked client (some args) m = (m.fields client ≡ connected) × (args.client ≡ client)

pub record IsClients (s : Clients) : Type 0 where
  pub dawn_marked : Marked dawn s.dawn_thread s.shm
  pub shepherd_marked : Marked shepherd s.shepherd_thread s.shm

Marked-same :
    (client : RobotDescField) (thread : Option TcpConn) (m m' : Shm)
    → m'.fields client ≡ m.fields client
    → Marked client thread m
    → Marked client thread m'
unfolding Marked
Marked-same client none m m' e h = e ∙ h
Marked-same client (some args) m m' e h = (e ∙ h.0, h.1)

same_shm-IsClients :
    (s : Clients) (m : Shm)
    → m.fields dawn ≡ s.shm.fields dawn
    → m.fields shepherd ≡ s.shm.fields shepherd
    → IsClients s
    → IsClients (record s { shm = m })
same_shm-IsClients s m d e v = record {
  dawn_marked = Marked-same dawn s.dawn_thread s.shm m d v.dawn_marked;
  shepherd_marked = Marked-same shepherd s.shepherd_thread s.shm m e v.shepherd_marked;
}

-- The two clients.
data Client : RobotDescField → Type 0 where
  is_dawn : Client dawn
  is_shepherd : Client shepherd

start_tcp_conn-IsClients :
    (setup : Setup) (client : RobotDescField) (send_logs : Bool) (s : Clients)
    → Client client
    → IsClients s
    → IsClients (start_tcp_conn setup client send_logs s)
unfolding start_tcp_conn put_thread robot_desc_write Marked
start_tcp_conn-IsClients setup _ send_logs s is_dawn v =
    elim (Bool-cases (
      setup.socket_ok
      && (setup.bind_ok
          && ((not send_logs || (setup.open_ok && setup.fdopen_ok)) && setup.thread_ok)))) [
            | inl e ↦ rw e (record {
              dawn_marked = (refl, refl);
              shepherd_marked =
                  Marked-same shepherd s.shepherd_thread s.shm _ refl v.shepherd_marked;
            })
            | inr e ↦ rw e v
          ]
start_tcp_conn-IsClients setup _ send_logs s is_shepherd v =
    elim (Bool-cases (
      setup.socket_ok
      && (setup.bind_ok
          && ((not send_logs || (setup.open_ok && setup.fdopen_ok)) && setup.thread_ok)))) [
            | inl e ↦ rw e (record {
              dawn_marked = Marked-same dawn s.dawn_thread s.shm _ refl v.dawn_marked;
              shepherd_marked = (refl, refl);
            })
            | inr e ↦ rw e v
          ]

Marked-client :
    (client : RobotDescField) (thread : Option TcpConn) (args : TcpConn) (m : Shm)
    → thread ≡ some args
    → Marked client thread m
    → args.client ≡ client
unfolding Marked
Marked-client client none args m e h = absurd (cc e)
Marked-client client (some args') args m e h =
    let same : args ≡ args' = cc e in ap (λ (a : TcpConn). a.client) same ∙ h.1

cleanup-IsClients :
    (s : Clients) (client : RobotDescField)
    → Client client
    → IsClients s
    → let s1 = put_thread client none s in
      IsClients (record s1 { shm = tcp_conn_cleanup client s1.shm })
unfolding put_thread tcp_conn_cleanup robot_desc_write Marked
cleanup-IsClients s _ is_dawn v = record {
  dawn_marked = refl;
  shepherd_marked = Marked-same shepherd s.shepherd_thread s.shm _ refl v.shepherd_marked;
}
cleanup-IsClients s _ is_shepherd v = record {
  dawn_marked = Marked-same dawn s.dawn_thread s.shm _ refl v.dawn_marked;
  shepherd_marked = refl;
}

end_thread-IsClients :
    (client : RobotDescField) (s : Clients)
    → Client client
    → IsClients s
    → IsClients (end_thread client s)
unfolding end_thread put_thread
end_thread-IsClients _ s is_dawn v = elim (Option-cases s.dawn_thread) [
  | inl e ↦ rw e v
  | inr (args, e) ↦
      rw (e, Marked-client dawn s.dawn_thread args s.shm e v.dawn_marked)
        (unfold put_thread in cleanup-IsClients s dawn is_dawn v)
]
end_thread-IsClients _ s is_shepherd v = elim (Option-cases s.shepherd_thread) [
  | inl e ↦ rw e v
  | inr (args, e) ↦
      rw (e, Marked-client shepherd s.shepherd_thread args s.shm e v.shepherd_marked)
        (unfold put_thread in cleanup-IsClients s shepherd is_shepherd v)
]

stop_tcp_conn-IsClients :
    (client : RobotDescField) (s : Clients)
    → Client client
    → IsClients s
    → IsClients (stop_tcp_conn client s)
unfolding stop_tcp_conn
stop_tcp_conn-IsClients _ s is_dawn v = end_thread-IsClients dawn s is_dawn v
stop_tcp_conn-IsClients _ s is_shepherd v = end_thread-IsClients shepherd s is_shepherd v

reconnect-IsClients :
    (setup : Setup) (client : RobotDescField) (send_logs : Bool) (s : Clients)
    → Client client
    → IsClients s
    → IsClients (reconnect setup client send_logs s)
unfolding reconnect robot_desc_read
reconnect-IsClients setup client send_logs s c v =
    let m1 : Shm = (robot_desc_read client s.shm).0 in
    let w : IsClients (record s { shm = m1 }) = same_shm-IsClients s m1 refl refl v in
    elim (Bool-cases (is_disconnected (s.shm.fields client))) [
      | inl e ↦ rw e (start_tcp_conn-IsClients setup client send_logs _ c w)
      | inr e ↦ rw e (
          start_tcp_conn-IsClients setup client send_logs _ c
            (stop_tcp_conn-IsClients client _ c w))
    ]

accept_round-IsClients :
    (setup : Setup) (id : IdRead) (is_inet : Bool) (s : Clients)
    → IsClients s
    → IsClients (accept_round setup id is_inet s)
unfolding accept_round
accept_round-IsClients setup id is_inet s v =
    elim (Bool-cases (determine_client id == 0 && is_inet)) [
      | inl e ↦ rw e (reconnect-IsClients setup shepherd false s is_shepherd v)
      | inr e ↦ elim (Bool-cases (determine_client id == 1 && is_inet)) [
        | inl f ↦ rw (e, f) (reconnect-IsClients setup dawn true s is_dawn v)
        | inr f ↦ rw (e, f) v
      ]
    ]

-- No message changes which clients are marked.
Handled-client :
    (from_dawn : Bool) (m m' : Shm) (client : RobotDescField)
    → Handled from_dawn m m'
    → is_client client ≡ true
    → m'.fields client ≡ m.fields client
unfolding recv_challenge recv_start_pos robot_desc_write robot_desc_read
Handled-client from_dawn m _ client (by_challenge none) h = refl
Handled-client from_dawn m _ client (by_challenge (some n)) h = ground (arith, h)
Handled-client from_dawn m _ client (by_run_mode not_unpacked) h = refl
Handled-client from_dawn m _ client (by_run_mode refused) h = refl
Handled-client from_dawn m _ client (by_run_mode (by_dawn v g)) h = ground (arith, h)
Handled-client from_dawn m _ client (by_run_mode (by_shepherd v g)) h = ground (arith, h)
Handled-client from_dawn m _ client (by_start_pos none) h = refl
Handled-client from_dawn m _ client (by_start_pos (some pos_left)) h = ground (arith, h)
Handled-client from_dawn m _ client (by_start_pos (some pos_right)) h = ground (arith, h)
Handled-client from_dawn m _ client (by_start_pos (some pos_other)) h = refl
Handled-client from_dawn m _ client (by_dev_data devices r e) h =
    ap (λ f. f client) (recv_dev_data-fields devices m r e)
Handled-client from_dawn m _ client (by_game_state no_state) h = refl
Handled-client from_dawn m _ client (by_game_state (ivy v)) h = ground (arith, h)
Handled-client from_dawn m _ client (by_game_state (dry v)) h = ground (arith, h)
Handled-client from_dawn m _ client (by_game_state (cold v)) h = ground (arith, h)
Handled-client from_dawn m _ client by_none h = refl

-- What happens to the clients: a connection that `main` accepts, a message, the end of a thread,
-- and whatever the other threads and processes do, which leaves the marks of the clients alone.
pub data Event (s : Clients) : Clients → Type 0 where
  accepted :
      (setup : Setup) (id : IdRead) (is_inet : Bool) → Event s (accept_round setup id is_inet s)
  received :
      (from_dawn : Bool) {m : Shm} → Handled from_dawn s.shm m → Event s (record s { shm = m })
  left_dawn : Event s (end_thread dawn s)
  left_shepherd : Event s (end_thread shepherd s)
  elsewhere :
      (m : Shm)
      → m.fields dawn ≡ s.shm.fields dawn
      → m.fields shepherd ≡ s.shm.fields shepherd
      → Event s (record s { shm = m })

pub data Events : Clients → Type 0 where
  none_yet : Events (record { dawn_thread = none; shepherd_thread = none; shm = start_shm })
  and_then : {s t : Clients} → Events s → Event s t → Events t

Event-IsClients : {s t : Clients} → Event s t → IsClients s → IsClients t
Event-IsClients {s} (accepted setup id is_inet) v = accept_round-IsClients setup id is_inet s v
Event-IsClients {s} (received from_dawn {m} h) v =
    same_shm-IsClients s m (Handled-client from_dawn s.shm m dawn h refl)
      (Handled-client from_dawn s.shm m shepherd h refl) v
Event-IsClients {s} left_dawn v = end_thread-IsClients dawn s is_dawn v
Event-IsClients {s} left_shepherd v = end_thread-IsClients shepherd s is_shepherd v
Event-IsClients {s} (elsewhere m d e) v = same_shm-IsClients s m d e v

-- Whatever clients connect, send and leave, in any order and whichever of the calls of the system
-- fail: Dawn is marked as connected while the thread of its connection runs and as disconnected
-- otherwise, and so is Shepherd. A connection starts as one step with its mark, and other
-- processes do not write the marks.
pub Events-IsClients : {s : Clients} → Events s → IsClients s
unfolding start_shm start_fields Marked
Events-IsClients none_yet = record { dawn_marked = refl; shepherd_marked = refl }
Events-IsClients (and_then r e) = Event-IsClients e (Events-IsClients r)
