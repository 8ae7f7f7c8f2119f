-- ===== src/Optimistic/Waiting.antt =====
-- waitForRPCs and consumeDoneChan of lookup_optim.go, with the goroutines of the RPCs: the channel
-- `doneChan`, the pool of leases, and the counter of the completed RPCs.
use go_libp2p_kad_dht.Prelude.{ℕ, suc, ◌==◌, ◌+◌, ◌-◌, ◌<◌, ltb, if◌then◌else◌, ◌≡◌}

-- What waitForRPCs does: it waits for the threshold, or it has rounds of its second loop to go; 0 rounds
-- are its end.
pub data Phase : Type 0 where
  first_loop : Phase
  second_loop : ℕ → Phase

-- `running` RPCs have not sent to doneChan yet, which has `buffered` elements; `consumers` goroutines of
-- consumeDoneChan wait, and each has a lease. `closes` counts the calls of close.
pub record Waiting : Type 0 where
  pub phase : Phase
  pub running : ℕ
  pub buffered : ℕ
  pub put_prov_done : ℕ
  pub consumers : ℕ
  pub leases : ℕ
  pub closes : ℕ

-- `if int(os.putProvDone.Add(1)) == rpcCount { close(os.doneChan) }`
unfoldable pub count_done : ℕ → Waiting → Waiting
count_done rpc_count w = record w {
  put_prov_done = w.put_prov_done + 1;
  closes = if (w.put_prov_done + 1) == rpc_count then w.closes + 1 else w.closes;
}

-- The start, with the RPCs all issued.
unfoldable pub wait_start : ℕ → Waiting
wait_start rpc_count = record {
  phase = first_loop;
  running = rpc_count;
  buffered = 0;
  put_prov_done = 0;
  consumers = 0;
  leases = 0;
  closes = 0;
}

-- `if os.returnThreshold > rpcCount { os.returnThreshold = rpcCount }`
unfoldable pub lowered : ℕ → ℕ → ℕ
lowered return_threshold rpc_count =
    if ltb rpc_count return_threshold then rpc_count else return_threshold

-- The first loop after one more element of the channel.
unfoldable pub next_phase : ℕ → ℕ → ℕ → Phase
next_phase threshold rpc_count done =
    if done == threshold then second_loop (rpc_count - done) else first_loop

-- The moves, for a channel of the capacity `capacity`. A lease can be had or not, as the other users of
-- the pool leave it. A consumer's receive, its release of the lease and its count are one move.
pub data Move (threshold rpc_count capacity : ℕ) : Waiting → Waiting → Type 0 where
  rpc_sends :
      (w : Waiting) (r : ℕ)
      → w.running ≡ suc r
      → w.buffered < capacity
      → Move threshold rpc_count capacity w (record w { running = r; buffered = w.buffered + 1 })
  first_receives :
      (w : Waiting) (b : ℕ)
      → w.phase ≡ first_loop
      → w.buffered ≡ suc b
      → Move threshold rpc_count capacity w (record w {
        phase = next_phase threshold rpc_count (w.put_prov_done + 1);
        buffered = b;
        put_prov_done = w.put_prov_done + 1;
      })
  lease_had :
      (w : Waiting) (k : ℕ)
      → w.phase ≡ second_loop (suc k)
      → Move threshold rpc_count capacity w
          (record w { phase = second_loop k; consumers = w.consumers + 1; leases = w.leases + 1 })
  second_receives :
      (w : Waiting) (k b : ℕ)
      → w.phase ≡ second_loop (suc k)
      → w.buffered ≡ suc b
      → Move threshold rpc_count capacity w
          (count_done rpc_count (record w { phase = second_loop k; buffered = b }))
  consumer_receives :
      (w : Waiting) (k b : ℕ)
      → w.consumers ≡ suc k
      → w.buffered ≡ suc b
      → Move threshold rpc_count capacity w
          (count_done rpc_count (record w { consumers = k; leases = w.leases - 1; buffered = b }))

pub data Moves (threshold rpc_count capacity : ℕ) : Waiting → Waiting → Type 0 where
  no_move : (w : Waiting) → Moves threshold rpc_count capacity w w
  first_move :
      (w v u : Waiting)
      → Move threshold rpc_count capacity w v
      → Moves threshold rpc_count capacity v u
      → Moves threshold rpc_count capacity w u
