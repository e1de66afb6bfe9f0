-- ===== src/Circuit/Startup.antt =====
-- A router process from its start to its loop, and its report to the proxy.
use torupload.Router.Relay6.Layers.{send_message_lem}
use torupload.Proxy.Register.Reports.{printed-plain, report-IsPlain}
use torupload.Message.Laws.{slice-place, fill_lem}
use torupload.Base.{
  length, ℕ, ◌<◌, ◌≡◌, refl, ◌≢◌, false, none, List, [], ◌∷◌, ◌++◌, ◌==◌, ne→==, length-append, ◌+◌,
  ◌∙◌, not, some, arith, ap,
}
use torupload.Base.Outcome.{ok, >>=-ok, guard, exit, ◌>>◌}
use torupload.Message.{htons, Message, place, u16, slice}
use torupload.Machine.{Machine}
use torupload.Text.Numbers.{scan_hu-decimal}
use torupload.Socket.{loopback, set_reciver_by_name}
use torupload.Trace.{udp_sent, logged, router_up}
use torupload.Router.State.{Router}
use torupload.Router.Start.{router_process, new_router, report, port_read}

port_read_lem : (port : ℕ) → port < 65536 → port_read port ≡ port
unfolding port_read
port_read_lem port small =
    ap (λ o. elim o as (λ _. ℕ) [ none ↦ 0 | some n ↦ n ]) (scan_hu-decimal port [] small tt)

-- The router process when it enters its loop: no circuit yet, and the report sent.
pub record HasReported (e : Machine) (stage id pid own_port proxy_port : ℕ) (r : Router)
    : Type 0 where
  pub stage_is : r.stage ≡ stage
  pub id_is : r.my_router_id ≡ id
  pub proxy_is : r.port_no_of_proxy ≡ proxy_port
  pub no_circuit : (r.to_forward ≡ false) × (r.to_forward_fdh ≡ false) × (r.to_forward_ece ≡ false)
  pub no_key : r.entry.ptr_to_key_for_cct ≡ none
  pub sent :
      r.trace
      ≡ udp_sent
          (record { sin_addr = loopback; sin_port = htons proxy_port })
          (report stage id pid own_port (e.nic id) ++ 0 ∷ [])
        ∷ logged (router_up (report stage id pid own_port (e.nic id)))
        ∷ []

-- A router process in a stage other than 1, with a port of the proxy below 65536 and a report of
-- less than 500 bytes: `Router` reaches its loop without a fault, with no circuit, no key and the
-- proxy's port as a number, and has logged its report and sent it, with the NUL byte at its end, to
-- the proxy's port on the local host.
pub router_process-HasReported :
    (e : Machine) (stage id pid own_port proxy_port : ℕ)
    → stage ≢ 1
    → proxy_port < 65536
    → length (report stage id pid own_port (e.nic id)) < 500
    → (r : Router) × (router_process e stage id pid own_port proxy_port ≡ ok r)
      × HasReported e stage id pid own_port proxy_port r
unfolding router_process
router_process-HasReported e stage id pid own_port proxy_port late small room = (
  record start {
    sock_child = record start.sock_child {
      send_to_address = record { sin_addr = loopback; sin_port = htons proxy_port };
    };
    trace =
        udp_sent (record { sin_addr = loopback; sin_port = htons proxy_port }) (text ++ 0 ∷ [])
        ∷ logged (router_up text)
        ∷ [];
  },
  >>=-ok _ _ (fill_lem e.indeterminate 0 (text ++ 0 ∷ []) (omega (arith, long, room))) (
      >>=-ok _ _
        (printed-plain e.indeterminate text (u16 (length text + 1))
          (report-IsPlain stage id pid own_port (e.nic id)) room)
        (>>=-ok _ (λ r3. guard (not (stage == 1)) (exit 0) >> ok r3)
          (send_message_lem ready message (omega (arith, room))
            ∙ ap
                (λ bytes. ok (record ready {
                  trace = udp_sent ready.sock_child.send_to_address bytes ∷ ready.trace;
                }))
                (ap (slice message.msg 0) {x = u16 (length text + 1)} (omega (arith, long, room))
                  ∙ slice-place e.indeterminate 0 (text ++ 0 ∷ [])))
          (rw (ne→== stage 1 late) refl))),
  record {
    stage_is = refl;
    id_is = refl;
    proxy_is = port_read_lem proxy_port small;
    no_circuit = (refl, refl, refl);
    no_key = refl;
    sent = refl;
  },
)
  where
    text : List ℕ
    text = report stage id pid own_port (e.nic id)

    start : Router
    start = new_router e stage id proxy_port

    long : length (text ++ 0 ∷ []) ≡ length text + 1
    long = length-append text (0 ∷ []) ∙ omega arith

    message : Message
    message = record {
      msg = place e.indeterminate 0 (text ++ 0 ∷ []);
      actual_length = u16 (length text + 1);
    }

    ready : Router
    ready = record start {
      sock_child = set_reciver_by_name start.sock_child loopback proxy_port;
      trace = logged (router_up text) ∷ [];
    }
