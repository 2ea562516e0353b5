-- ===== src/Ipc/Endpoints.antt =====
-- Which endpoints there are.
use dragoon_kernel.Prelude.{
  ℕ, ◌≡◌, ◌≢◌, ◌<◌, true, false, none, find_from, arith, refl, Option-cases, inl, inr, not,
  not-false, not-true,
}
use dragoon_kernel.Prelude.Int.{ℤ, pos, negsuc, minus_one}
use dragoon_kernel.Prelude.Loops.{find_from-some, find_from-none}
use dragoon_kernel.Kernel.{Kernel, IpcEndpoint, IpcMessage}
use dragoon_kernel.Ipc.{
  ipc_send, ipc_recv, ipc_endpoint_create, ipc_endpoint_destroy, endpoint, max_endpoints,
}

-- Nobody waits at the endpoint and nothing is pending.
pub record IsFresh (e : IpcEndpoint) : Type 0 where
  pub is_active : e.active ≡ true
  pub no_sender : e.sender_task ≡ none
  pub no_receiver : e.receiver_task ≡ none
  pub no_pending : e.has_pending ≡ false

-- -1 and nothing changed, with every endpoint active; or the lowest endpoint that was not active,
-- which is now fresh, and no other changed.
abbrev pub Creates : Kernel → ℤ × Kernel → Type 0
Creates k (negsuc n, k') =
    (n ≡ 0) × (k' ≡ k) × ((i : ℕ) → i < max_endpoints → (k.endpoints i).active ≡ true)
Creates k (pos ep, k') =
    (ep < max_endpoints)
    × ((k.endpoints ep).active ≡ false)
    × ((i : ℕ) → i < ep → (k.endpoints i).active ≡ true)
    × IsFresh (k'.endpoints ep)
    × ((i : ℕ) → ep ≢ i → k'.endpoints i ≡ k.endpoints i)

-- `ipc_endpoint_create` fails only when all 32 endpoints are active, and then changes nothing;
-- otherwise it opens the lowest inactive one, with nobody waiting and nothing pending, and leaves the
-- others as they were.
pub ipc_endpoint_create_lem : (k : Kernel) → Creates k (ipc_endpoint_create k)
unfolding ipc_endpoint_create
ipc_endpoint_create_lem k =
    elim (Option-cases (find_from max_endpoints 0 (λ i. not (k.endpoints i).active))) [
      | inl e ↦
          rw (e, ipc_endpoint_create)
            (refl, refl, λ i l. not-false (find_from-none max_endpoints 0 _ e i (omega arith) l))
      | inr (ep, e) ↦
          let found = find_from-some max_endpoints 0 (λ i. not (k.endpoints i).active) ep e in
          rw (e, ipc_endpoint_create)
            (
              found.below,
              not-true found.passes,
              λ i l. not-false (found.least i (omega arith) l),
              record {
                is_active = ground arith;
                no_sender = ground arith;
                no_receiver = ground arith;
                no_pending = ground arith;
              },
              λ i ne. ground arith,
            )
    ]

destroyed : (i : ℤ) (k : Kernel) → endpoint i (ipc_endpoint_destroy i k) ≡ none
unfolding ipc_endpoint_destroy
destroyed (negsuc n) k = refl
destroyed (pos i) k = ground arith

-- After `ipc_endpoint_destroy` of a number, in range or not, a send and a receive at that number
-- return -1 and change nothing.
pub ipc_endpoint_destroy_lem :
    (o : Kernel → Kernel) (cpu : ℕ) (i : ℤ) (msg : IpcMessage) (k : Kernel)
    → (ipc_send o cpu i msg (ipc_endpoint_destroy i k) ≡ (minus_one, ipc_endpoint_destroy i k))
      × (ipc_recv o cpu i (ipc_endpoint_destroy i k) ≡ (none, ipc_endpoint_destroy i k))
unfolding ipc_send ipc_recv
ipc_endpoint_destroy_lem o cpu i msg k =
    (rw (ipc_send, destroyed i k) refl, rw (ipc_recv, destroyed i k) refl)
