-- ===== src/Cluster/Sending/Returned.antt =====
-- The two parts, where the first slave answers nothing: a message is taken from the front of the
-- queue, and goes back to it.
use grandma_scheduling_servi.Prelude.{
  ℕ, ◌-◌, ◌/◌, ◌%◌, ◌<◌, ◌≡◌, refl, ap, ◌∙◌, inl, inr, Bool-cases, true, List, [], ◌∷◌, ◌++◌,
  Option, some, length, Outcome, done, ◌>>=◌, ltb, load, load-get_or, get_or, set, length-set,
  get_or-set_self, arith,
}
use grandma_scheduling_servi.Prelude.Text.{Bytes}
use grandma_scheduling_servi.Message.{Obj, get_message_payload}
use grandma_scheduling_servi.Queue.Inv.{IsValid, contents}
use grandma_scheduling_servi.Queue.Refine.{pop_message-done, push_front-done}
use grandma_scheduling_servi.Schedule.Keystore.{unlocked}
use grandma_scheduling_servi.Cluster.Nodes.{Node, Slaves, send_slave}
use grandma_scheduling_servi.Cluster.Nodes.Locked.{nobody}
use grandma_scheduling_servi.Cluster.Sending.{
  Sender, waits, execute_slave_queue, send_popped, wait_or_return, select_answer, await_answer,
  return_message,
}

-- The first slave is the node `p`, nothing has come from it, and nobody holds the lock.
pub record IsSilent (p : ℕ) (s : Slaves) : Type 0 where
  pub free : s.lock ≡ unlocked
  pub first : load s.slave_connections 0 ≡ done p
  pub in_range : p < length s.nodes
  pub quiet : (get_or s.nodes p nobody).channel ≡ []

module _ (fix : ℕ → ℕ → Slaves → Outcome Slaves) (cap : ℕ) where
  send-IsSilent :
      (p : ℕ) (content : Bytes) (s : Slaves)
      → IsSilent p s
      → (s' : Slaves) × (send_slave fix true content 0 s ≡ done ((p, true), s')) × IsSilent p s'
  unfolding send_slave
  send-IsSilent p content s v =
      let node = get_or s.nodes p nobody in
      let w : Node → Node = λ n. record n {
        written =
            n.written
            ++ (((length content / 256 % 256) ∷ (length content % 256) ∷ []) ∷ content ∷ []);
      } in
      let room : ltb p (length s.nodes) ≡ true = ground (arith, v.in_range) in
      elim (Bool-cases node.closed) [
        | inl shut ↦ (
          record s { lock = unlocked },
          rw (v.free, v.first, load-get_or s.nodes p nobody v.in_range, shut) refl,
          record { free = refl; first = v.first; in_range = v.in_range; quiet = v.quiet },
        )
        | inr open_now ↦ (
          record s { nodes = set s.nodes p (w node); lock = unlocked },
          rw (v.free, v.first, load-get_or s.nodes p nobody v.in_range, open_now, room) refl,
          record {
            free = refl;
            first = v.first;
            in_range = omega (arith, v.in_range, length-set s.nodes p (w node));
            quiet =
                ap (λ n. n.channel) (get_or-set_self s.nodes p (w node) nobody v.in_range)
                ∙ v.quiet;
          },
        )
      ]

  -- The first part, for one message.
  pub execute-waits :
      (p : ℕ) (msg : Obj) (rest : List (Option Obj)) (s : Sender)
      → IsSilent p s.slaves
      → IsValid cap s.cluster_queue
      → contents cap s.cluster_queue ≡ some msg ∷ rest
      → (s' : Sender) × (execute_slave_queue fix cap true s ≡ done (waits p msg, s'))
        × IsSilent p s'.slaves
        × IsValid cap s'.cluster_queue
        × (contents cap s'.cluster_queue ≡ rest)
  unfolding execute_slave_queue send_popped wait_or_return
  execute-waits p msg rest s silent v e =
      let (q, popped, v', left) = pop_message-done cap s.cluster_queue (some msg) rest v e in
      let (slaves, sent, silent') =
        send-IsSilent p (151 ∷ get_message_payload msg) s.slaves silent in
      (record s { slaves = slaves; cluster_queue = q }, rw (popped, sent) refl, silent', v', left)

  -- The second part, where nothing has come.
  pub await-returned :
      (p : ℕ) (msg : Obj) (s : Sender)
      → IsSilent p s.slaves
      → IsValid cap s.cluster_queue
      → length (contents cap s.cluster_queue) < cap - 1
      → (s' : Sender) × (await_answer fix cap p msg s ≡ done s')
        × IsSilent p s'.slaves
        × IsValid cap s'.cluster_queue
        × (contents cap s'.cluster_queue ≡ some msg ∷ contents cap s.cluster_queue)
  unfolding await_answer select_answer return_message
  await-returned p msg s silent v room =
      let (q, pushed, v', there) = push_front-done cap s.cluster_queue (some msg) v room in
      (
        record s { cluster_queue = q },
        ap (λ o. o >>= λ node. select_answer fix cap p msg node.channel s)
              (load-get_or s.slaves.nodes p nobody silent.in_range)
            ∙ (ap (λ ids. select_answer fix cap p msg ids s) silent.quiet ∙ (rw pushed refl)),
        silent,
        v',
        there,
      )
