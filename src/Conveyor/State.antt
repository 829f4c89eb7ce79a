-- ===== src/Conveyor/State.antt =====
-- The state of the conveyor (conveyor.hpp). The members that hold clients, threads and the OPC UA
-- server are left out. A remote robot is what the conveyor remembers of it, its endpoint.
use opcua_cps_kitchen.Base.{
  ℕ, zero, suc, String, Bool, true, false, Option, none, List, [], ◌∷◌, put,
}

-- struct plate.
pub record Plate : Type 0 where
  pub id : ℕ
  pub position : ℕ
  pub placed_recipe_id : ℕ
  pub processed_steps : ℕ
  pub occupied : Bool
  pub dish_finished : Bool
  pub target_position : ℕ

-- enum state.
pub data BeltState : Type 0 where
  idling moving : BeltState

-- What the steady timer waits for.
pub data BeltTimer : Type 0 where
  retrieval movement : BeltTimer

pub record Conveyor : Type 0 where
  pub plates : List Plate
  pub occupied_plates : List ℕ
  pub occupied_plates_count : ℕ
  pub position_plate_id_map : List (ℕ × ℕ)
  pub notifications_map : List (ℕ × String)
  pub position_remote_robot_map : List (ℕ × String)
  pub next_robot_request_queue : List ℕ
  pub state_status : BeltState
  pub timer : Option BeltTimer
  pub running : Bool

unfoldable pub new_plate : ℕ → Plate
new_plate i = record {
  id = i;
  position = i;
  placed_recipe_id = 0;
  processed_steps = 0;
  occupied = false;
  dish_finished = false;
  target_position = 0;
}

-- The loop of the constructor that sets up the plates, from plate `i`.
unfoldable pub new_plates : ℕ → ℕ → List Plate
unfolding new_plate
new_plates i zero = []
new_plates i (suc rounds) = new_plate i ∷ new_plates (suc i) rounds

unfoldable pub new_positions : ℕ → ℕ → List (ℕ × ℕ) → List (ℕ × ℕ)
new_positions i zero m = m
new_positions i (suc rounds) m = new_positions (suc i) rounds (put i i m)

-- The conveyor that the constructor leaves, with `size` plates.
unfoldable pub new_conveyor : ℕ → Conveyor
unfolding new_plates new_positions
new_conveyor size = record {
  plates = new_plates 0 size;
  occupied_plates = [];
  occupied_plates_count = 0;
  position_plate_id_map = new_positions 0 size [];
  notifications_map = [];
  position_remote_robot_map = [];
  next_robot_request_queue = [];
  state_status = idling;
  timer = none;
  running = true;
}
