-- ===== src/Rpc/Calls/Dialogue.antt =====
-- The messages of a call between two processes over one connection, as they go back and forth: the
-- description that the loops are compared with.
use rsbinder.Prelude.{ℕ, suc, ◌≡◌, ◌≢◌, false, List, [], ◌∷◌, ◌++◌, some}
use rsbinder.Prelude.Int.{pos}
use rsbinder.Status.{StatusCode, to_i32}
use rsbinder.Rpc.Result.{ok}
use rsbinder.Rpc.Address.{RpcAddress, is_zero}
use rsbinder.Rpc.Wire.Readers.{WireReply, WireMessage, transact, reply, dec_strong}
use rsbinder.Rpc.State.Nodes.{RpcState, lookup_local, dec_strong_local}
use rsbinder.Rpc.Calls.{
  Body, Call, Answer, Program, returns, fails, calls, drops, Handlers, Host, is_oneway,
  interface_transaction, ping_transaction, wire_transaction, wire_reply, no_body, cancel_all,
}
use rsbinder.Rpc.Calls.Loop.{answer_of}

-- The message is encoded into the frame, which decodes to it.
abbrev pub IsCarried : Host → WireMessage → List ℕ → Type 0
IsCarried host m f = (host.encode m ≡ ok f) × (host.decode_message f ≡ ok m)

-- A twoway call of an object that user code answers.
pub record IsTwoway (c : Call) : Type 0 where
  pub address : is_zero c.address ≡ false
  pub flags : is_oneway c.flags ≡ false
  pub interface : c.code ≢ interface_transaction
  pub ping : c.code ≢ ping_transaction

abbrev pub dec_of : RpcAddress → RpcState → RpcState
dec_of a s = (dec_strong_local a 1 s).0

-- `Dialogue host n a b c sa sa' sb sb' out inn r`: process `a` calls `c` on process `b`; `a` sends the
-- frames `out` and receives `inn`, the last of which has the reply `r`, and the sessions' tables go from
-- `sa` and `sb` to `sa'` and `sb'`. In `Service` process `b` runs the program of its handler, and sends
-- `out`. No part is nested deeper than `n`.
mutual
  pub data Dialogue (host : Host)
      : ℕ
        → Handlers
        → Handlers
        → Call
        → RpcState
        → RpcState
        → RpcState
        → RpcState
        → List (List ℕ)
        → List (List ℕ)
        → WireReply
        → Type 0 where
    asks :
        {n : ℕ} {a b : Handlers} {c : Call} {sa sa' sb sb' : RpcState} {out inn : List (List ℕ)}
        {r : WireReply} {frame answer : List ℕ} {binder : ℕ}
        → IsTwoway c
        → lookup_local c.address sb ≡ some binder
        → IsCarried host (transact (wire_transaction c 0)) frame
        → Service host n b a (b.handle binder (wire_transaction c 0)) sb sb' sa sa' out inn r
        → IsCarried host (reply r) answer
        → Dialogue host (suc n) a b c sa sa' sb sb' (frame ∷ inn) (out ++ (answer ∷ [])) r

  pub data Service (host : Host)
      : ℕ
        → Handlers
        → Handlers
        → Program
        → RpcState
        → RpcState
        → RpcState
        → RpcState
        → List (List ℕ)
        → List (List ℕ)
        → WireReply
        → Type 0 where
    ends :
        {n : ℕ} {b a : Handlers} {body : Body} {sb sa : RpcState}
        → Service host (suc n) b a (returns body) sb sb sa sa [] [] (wire_reply (pos 0) body)
    refuses :
        {n : ℕ} {b a : Handlers} {code : StatusCode} {body : Body} {sb sa : RpcState}
        → Service host
            (suc n)
            b
            a
            (fails code body)
            sb
            (cancel_all body.leaving sb)
            sa
            sa
            []
            []
            (wire_reply (to_i32 host.errnos code) no_body)
    asks_back :
        {n : ℕ} {b a : Handlers} {c : Call} {next : Answer → Program}
        {sb sb' sb'' sa sa' sa'' : RpcState} {out inn out' inn' : List (List ℕ)} {q r : WireReply}
        → Dialogue host n b a c sb sb' sa sa' out inn q
        → Service host n b a (next (answer_of host q)) sb' sb'' sa' sa'' out' inn' r
        → Service host (suc n) b a (calls c next) sb sb'' sa sa'' (out ++ out') (inn ++ inn') r
    lets_go :
        {n : ℕ} {b a : Handlers} {addr : RpcAddress} {p : Program} {sb sb' sa sa' : RpcState}
        {out inn : List (List ℕ)} {r : WireReply} {frame : List ℕ}
        → IsCarried host (dec_strong addr 1) frame
        → Service host n b a p sb sb' (dec_of addr sa) sa' out inn r
        → Service host (suc n) b a (drops addr p) sb sb' sa sa' (frame ∷ out) inn r
