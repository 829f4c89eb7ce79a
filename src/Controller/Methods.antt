-- ===== src/Controller/Methods.antt =====
-- The method nodes of the controller, and what its clients of the robots report (controller.cpp,
-- controller.hpp). The method context is the controller, and copying the output is taken to
-- succeed.
use opcua_cps_kitchen.Base.{
  ℕ, String, Bool, true, false, none, some, List, [], ◌∷◌, ◌++◌, find, if◌then◌else◌,
}
use opcua_cps_kitchen.Capabilities.{Capabilities, insert}
use opcua_cps_kitchen.Robot.Methods.{Answer, bad, good}
use opcua_cps_kitchen.Controller.State.{
  RemoteRobot, ControllerTask, registration, next_robot_request, position_swapped,
  capabilities_reconfigured, Controller,
}
use opcua_cps_kitchen.Controller.Registry.{update_robot}

-- The inputs: scalars and arrays of strings.
pub data Input : Type 0 where
  uint32 : ℕ → Input
  string : String → Input
  strings : List String → Input

unfoldable pub post : ControllerTask → Controller → Controller
post t c = record c { tasks = c.tasks ++ t ∷ [] }

-- The loop that collects an array of strings in a set.
unfoldable pub collect : List String → Capabilities → Capabilities
unfolding insert
collect [] caps = caps
collect (n ∷ ns) caps = collect ns (insert n caps)

unfoldable pub register_robot : List Input → Controller → Controller × Answer Bool
unfolding post collect
register_robot (string endpoint ∷ uint32 position ∷ strings ns ∷ []) c =
    (post (registration endpoint position (collect ns [])) c, good true)
register_robot _ c = (c, bad)

unfoldable pub choose_next_robot : List Input → Controller → Controller × Answer Bool
unfolding post
choose_next_robot (uint32 id ∷ uint32 processed ∷ string endpoint ∷ string kind ∷ []) c = (
  post (next_robot_request id processed (record { endpoint = endpoint; kind = kind })) c,
  good true,
)
choose_next_robot _ c = (c, bad)

-- The value of a changed attribute goes to the robot's member; the first one is not passed on.
unfoldable pub note_position : ℕ → RemoteRobot → RemoteRobot
note_position new r = record r { position = new; initial_position_subscription = false }

unfoldable pub position_changed : ℕ → ℕ → Controller → Controller
unfolding update_robot note_position post
position_changed key new c =
    let c' = update_robot key (note_position new) c in
    elim (find c.position_remote_robot_map key) [
      | none ↦ c
      | some r ↦
          if r.initial_position_subscription then c' else post (position_swapped r.position new) c'
    ]

unfoldable pub note_capabilities : Capabilities → RemoteRobot → RemoteRobot
note_capabilities caps r = record r {
  capabilities = caps;
  initial_capabilities_subscription = false;
}

unfoldable pub capabilities_changed : ℕ → List String → Controller → Controller
unfolding update_robot note_capabilities post collect
capabilities_changed key ns c =
    let c' = update_robot key (note_capabilities (collect ns [])) c in
    elim (find c.position_remote_robot_map key) [
      | none ↦ c
      | some r ↦
          if r.initial_capabilities_subscription
          then c'
          else post (capabilities_reconfigured r.position) c'
    ]
