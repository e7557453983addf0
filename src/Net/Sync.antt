-- ===== src/Net/Sync.antt =====
-- `sync` of debug_files/net_io_channel.h: the two parties exchange a byte each. A step is one call
-- of `send_data` or `recv_data` that ends; the stream is not buffered, so what is sent is on its
-- way, and a byte that arrived can be received.
use sectric.Common.{ℕ, ◌≡◌, refl, ◌⊎◌, inl, inr, List, [], ◌∷◌, ◌++◌}

-- Where a party is in `sync`: before its first call, between the two with what `tmp` holds, or
-- after the second.
pub data Phase : Type 0 where
  before after : Phase
  between : ℕ → Phase

-- The server's phase, the client's, and the bytes on the way to the client and to the server.
pub data System : Type 0 where
  system : Phase → Phase → List ℕ → List ℕ → System

-- The server sends and then receives, the client receives and then sends what it received.
infix 40 ◌⟶◌ ◌⟶*◌
pub data ◌⟶◌ : System → System → Type 0 where
  server_sends :
      {c : Phase} {xs ys : List ℕ} → system before c xs ys ⟶ system (between 0) c (xs ++ 0 ∷ []) ys
  client_receives :
      {s : Phase} {x : ℕ} {xs ys : List ℕ}
      → system s before (x ∷ xs) ys ⟶ system s (between x) xs ys
  client_sends :
      {s : Phase} {x : ℕ} {xs ys : List ℕ}
      → system s (between x) xs ys ⟶ system s after xs (ys ++ x ∷ [])
  server_receives :
      {c : Phase} {x y : ℕ} {xs ys : List ℕ}
      → system (between x) c xs (y ∷ ys) ⟶ system after c xs ys

pub data ◌⟶*◌ : System → System → Type 0 where
  stay : {s : System} → s ⟶* s
  go : {s t u : System} → s ⟶ t → t ⟶* u → s ⟶* u

abbrev pub start : System
start = system before before [] []

-- The stages of a synchronisation, in order.
data IsStage : System → Type 0 where
  waiting : IsStage (system before before [] [])
  called : IsStage (system (between 0) before (0 ∷ []) [])
  heard : IsStage (system (between 0) (between 0) [] [])
  answered : IsStage (system (between 0) after [] (0 ∷ []))
  met : IsStage (system after after [] [])

step-IsStage : {s t : System} → s ⟶ t → IsStage s → IsStage t
step-IsStage server_sends waiting = called
step-IsStage client_receives called = heard
step-IsStage client_sends heard = answered
step-IsStage server_receives answered = met

run-IsStage : {s t : System} → s ⟶* t → IsStage s → IsStage t
run-IsStage stay h = h
run-IsStage (go step rest) h = run-IsStage rest (step-IsStage step h)

abbrev pub server_phase : System → Phase
server_phase (system s c xs ys) = s

abbrev pub client_phase : System → Phase
client_phase (system s c xs ys) = c

stage-after : (s : System) → IsStage s → server_phase s ≡ after → client_phase s ≡ after
stage-after s waiting h = cc
stage-after s called h = cc
stage-after s heard h = cc
stage-after s answered h = cc
stage-after s met h = refl

stage_moves : (s : System) → IsStage s → (s ≡ system after after [] []) ⊎ ((t : System) × s ⟶ t)
stage_moves s waiting = inr (_, server_sends)
stage_moves s called = inr (_, client_receives)
stage_moves s heard = inr (_, client_sends)
stage_moves s answered = inr (_, server_receives)
stage_moves s met = inl refl

-- In every state that two parties reach in `sync`, if the server has left it then the client has
-- made its last call.
pub sync_barrier : (s : System) → start ⟶* s → server_phase s ≡ after → client_phase s ≡ after
sync_barrier s run h = stage-after s (run-IsStage run waiting) h

-- In every state that two parties reach in `sync`, both have left it and no byte is on the way,
-- or one of them can make its next call.
pub sync_progress :
    (s : System) → start ⟶* s → (s ≡ system after after [] []) ⊎ ((t : System) × s ⟶ t)
sync_progress s run = stage_moves s (run-IsStage run waiting)
