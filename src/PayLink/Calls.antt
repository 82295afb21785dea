-- ===== src/PayLink/Calls.antt =====
-- linkmint-backend/paylink-service under any sequence of requests, each with whatever the chain and
-- the compliance service answer to it.
use paylink.Prelude.{
  ℕ, String, ◌≡◌, some, List, [], ◌∷◌, ◌++◌, lookup, string_eq, ◌∙◌, sym, ap, append_assoc,
  append-nil,
}
use paylink.PayLink.Model.{PayLinkRow, PayLinkEvent, PayLinkDb}
use paylink.PayLink.Chain.{Chain, Node}
use paylink.PayLink.Service.{CreateCommand, Wiring, create, perform}
use paylink.PayLink.Settle.{get, cancel}
use paylink.PayLink.Lifecycle.{Steps, Steps-trans, here, Kept, Steps-Kept}
use paylink.PayLink.Validity.{IsValid, Steps-IsValid}
use paylink.PayLink.Course.{Course}
use paylink.PayLink.Requests.{create-Course}
use paylink.PayLink.Settlements.{get-Course, cancel-Course}
use paylink.PayLink.Nonces.{NoncesRise, IsCounted, Signed-IsCounted}

pub data Call : Type 0 where
  creating : (w : Wiring) (chain : Chain) (pl_id : String) (cmd : CreateCommand) → Call
  getting : (chain : Chain) (now : ℕ) (pl_id : String) → Call
  cancelling : (w : Wiring) (chain : Chain) (pl_id caller_addr : String) → Call

unfoldable pub serve : Call → Node → Node
serve (creating w chain pl_id cmd) n = (perform (create w chain pl_id cmd) n).1
serve (getting chain now pl_id) n = (perform (get chain now pl_id) n).1
serve (cancelling w chain pl_id caller_addr) n = (perform (cancel w chain pl_id caller_addr) n).1

unfoldable pub serve_all : List Call → Node → Node
serve_all [] n = n
serve_all (call ∷ calls) n = serve_all calls (serve call n)

abbrev pub no_paylinks : PayLinkDb
no_paylinks = record { paylinks = []; events = [] }

abbrev pub new_node : Node
new_node = record {
  session = record { stored = no_paylinks; working = no_paylinks; published = [] };
  next_nonce = [];
  taken = [];
}

serve-Course : (call : Call) (n : Node) → IsValid n.session.stored → Course n (serve call n)
unfolding serve
serve-Course (creating w chain pl_id cmd) n v = create-Course w chain pl_id cmd n
serve-Course (getting chain now pl_id) n v = get-Course chain now pl_id n v
serve-Course (cancelling w chain pl_id by) n v = cancel-Course w chain pl_id by n v

-- what a run has done by the time it is in a state
record Run (n n' : Node) : Type 0 where
  reported : List PayLinkEvent
  steps : Steps n.session.stored n'.session.stored
  stored_events : n'.session.stored.events ≡ n.session.stored.events ++ reported
  echoed : n'.session.published ≡ n.session.published ++ reported
  counted : IsCounted n'

serve_all-Run :
    (calls : List Call) (n : Node)
    → IsValid n.session.stored
    → IsCounted n
    → Run n (serve_all calls n)
unfolding serve_all
serve_all-Run [] n v c = record {
  reported = [];
  steps = here;
  stored_events = sym (append-nil n.session.stored.events);
  echoed = sym (append-nil n.session.published);
  counted = c;
}
serve_all-Run (call ∷ calls) n v c =
    let first = serve-Course call n v in
    let rest =
      serve_all-Run calls (serve call n) (Steps-IsValid first.steps v)
        (Signed-IsCounted first.signing c) in
    record {
      reported = first.reported ++ rest.reported;
      steps = Steps-trans first.steps rest.steps;
      stored_events =
          rest.stored_events
          ∙ ap (λ es. es ++ rest.reported) first.stored_events
          ∙ append_assoc n.session.stored.events first.reported rest.reported;
      echoed =
          rest.echoed
          ∙ ap (λ es. es ++ rest.reported) first.echoed
          ∙ append_assoc n.session.published first.reported rest.reported;
      counted = rest.counted;
    }

new-Run : (calls : List Call) → Run new_node (serve_all calls new_node)
new-Run calls =
    serve_all-Run calls new_node (record { dict = tt; keyed = tt; sound = tt })
      (record { rising = tt; used = tt })

-- After any requests to a new service identifiers are unique, each row stands under its own, was sent
-- to the chain if and only if it is past its creation, cancelled ones apart, and has a time of
-- verification exactly if it is verified.
pub serve_all-IsValid : (calls : List Call) → IsValid (serve_all calls new_node).session.stored
serve_all-IsValid calls =
    Steps-IsValid (new-Run calls).steps (record { dict = tt; keyed = tt; sound = tt })

-- After any requests to a new service, what was published is what the outbox holds, in its order.
serve_all-published :
    (calls : List Call)
    → (serve_all calls new_node).session.published
      ≡ (serve_all calls new_node).session.stored.events
serve_all-published calls = (new-Run calls).echoed ∙ sym (new-Run calls).stored_events

-- After any requests to a new service, the transactions that the chain has taken from one sender have
-- rising nonces.
pub serve_all-NoncesRise : (calls : List Call) → NoncesRise (serve_all calls new_node).taken
serve_all-NoncesRise calls = (new-Run calls).counted.rising

-- A PayLink that is stored after some requests to a new service is, after any further ones, stored with the same parties, amount, currency
-- and expiry, and unchanged if it was verified, failed or cancelled.
pub serve_all-Kept :
    (before calls : List Call) (k : String) (row : PayLinkRow)
    → lookup k (serve_all before new_node).session.stored.paylinks ≡ some row
    → Kept k row (serve_all calls (serve_all before new_node)).session.stored
serve_all-Kept before calls k row h =
    Steps-Kept k row
      (serve_all-Run calls (serve_all before new_node) (serve_all-IsValid before)
        (new-Run before).counted).steps
      h
