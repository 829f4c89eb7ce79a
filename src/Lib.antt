-- ===== src/Lib.antt =====
-- opcua-cps-kitchen: agents of an automated kitchen that talk over OPC UA. Robots stand along a
-- conveyor belt. The controller knows the robots, chooses one for an order and may move robots to
-- other places or give them other capabilities. A robot works through the actions of the orders
-- that it accepts as far as it is capable to, and notifies the conveyor, which takes the dish over
-- and carries it to the next robot or to the output.
--
-- Files, and the code that they model:
--   Base, Base/Tests, Base/Lists, Base/Maps   shared names, Boolean tests, lists and maps over the
--                  native numbers
--   Actions        actions/src/robot_actions.cpp, actions/include/robot_actions.hpp,
--                  robot/include/robot_tool.hpp: tools and the catalogue of actions
--   Capabilities   capabilities/src/capability_parser.cpp: a robot's profile as a set of names
--   Recipe         recipe/src/recipe_parser.cpp, recipe/include/recipe_parser.hpp: the parser, with
--                  what it accepts (Recipe/Plans), the times (Recipe/Times) and the look-up by id
--                  (Recipe/Lookup)
--   Robot          robot/src/robot.cpp, robot/include/robot.hpp, robot/include/robot_state.hpp
--     Robot/State      the members of `robot`, the attribute nodes, the timer and the posted tasks
--     Robot/Distance   the way between two places (handle_switch_position)
--     Robot/Work       the handlers of the worker thread, by their names in robot.cpp
--     Robot/Methods    the method nodes: receive_task, handover_finished_order, switch_position,
--                      commit_new_position, reconfigure
--     Robot/Init       the constructor
--     Robot/Loop       the event loop: Step is one task, one handler of the timer or one call
--     Robot/Activity   what a robot has under way
--     Robot/Load       the account of the accepted work in the attributes
--     Robot/Progress   how the actions of a dish follow one another
--     Robot/TakingUp   how an accepted order is taken up
--     Robot/Acceptance accepted tasks
--     Robot/Deadlock   a task and a reconfiguration at once
--   Conveyor       conveyor/src/conveyor.cpp, conveyor/include/conveyor.hpp
--     Conveyor/State     plates, the members of `conveyor`, the constructor's loop
--     Conveyor/Plates    the look-up of a plate, handle_handover_finished_order, reset_plate
--     Conveyor/Retrieval remote robots, notifications and the loop that takes dishes over
--     Conveyor/Movement  the loop of move_conveyor
--     Conveyor/Delivery  requests for next robots and the loop of deliver_finished_order
--     Conveyor/Loop      determine_next_movement, move_conveyor, position_swapped_callback, and
--                        BeltStep, one posted handler or one handler of the timer
--     Conveyor/Belt      where the plates stand, and the map of their positions
--     Conveyor/Stock     which plates are occupied, and how many (Stock/Bounds)
--     Conveyor/Journey   which dishes leave the belt
--     Conveyor/Output    when a plate comes by the output, and where it started
--   Mape           mape_implementation/src/kitchen_mape.cpp, mape_interface/include/mape.hpp: the
--                  policies that choose a robot, what they choose (Mape/Choice) and what they ask
--                  of the controller (Mape/Requests)
--   Controller     controller/src/controller.cpp, controller/include/controller.hpp
--     Controller/State     remote_robot, next_robot_receiver, the members of `controller`
--     Controller/Registry  the map of the robots, remove_stopped_robots,
--                          is_robot_position_swapping, erase_stale_pending_swap_entries
--     Controller/Swaps     swap_robot_positions, position_swapped_callback
--     Controller/Requests  registrations, requests for robots, changes of capabilities
--     Controller/Methods   register_robot, choose_next_robot, and what the clients report
--     Controller/Loop      ControllerStep, one posted handler, call or report
--     Controller/Falling   the map by falling positions
--     Controller/Pending   the pending swaps
--     Controller/Directory which endpoint stands where, as an abstract registry, and what each step
--                          is to make of it
--     Controller/Calls     the calls of receivers among the others
--     Controller/Answers, Controller/Returns   what a request is answered, and when
--     Controller/Leaving   a robot that stops while it is in a pending swap
--     Controller/Adapting, Controller/Reconfiguring   requests that change capabilities
--   Kitchen        kitchen/src/kitchen.cpp, kitchen/include/kitchen.hpp
--     Kitchen/State        remote_robot and the members of `kitchen`
--     Kitchen/Placing      handle_random_order_request, arm_placing_gate
--     Kitchen/Robots       handle_receive_next_robot, position_swapped_callback
--     Kitchen/Loop         the method nodes, and KitchenStep, one posted handler, one handler of
--                          the timer, a call or a report
--     Kitchen/Orders, Kitchen/Assignment   which counter an order goes to
--     Kitchen/Account      the counters and the placing gate over the event loop
--     Kitchen/Drain        how the queue of the placing gate empties
--   Examples       runs on concrete inputs
--
-- State. A robot is a record of its members; an attribute node that the code reads back is a field
-- of the record of attributes. A handler is a function from a robot to an outcome: the robot after
-- it, or the fault that keeps it from returning (an exception that nothing catches, an empty queue,
-- the second lock of state_mutex_, a wait for a conveyor that does not come back). What the code
-- posts to the io_context is a list of tasks, and the one steady timer is an option; setting it
-- while a wait is pending stops the robot, as the cancelled handler does.
--
-- Numbers. UA_UInt32 and position_t wrap around at 2^32, duration_t at 2^64, and the model writes
-- the remainder out.
--
-- Loops. They recurse on the list that they walk or on the rounds that are left. The loop that
-- notifies the conveyor has no bound of its own: it recurses on the list of what its attempts
-- meet, and a list that ends before an answer is the fault `blocked`.
--
-- Containers. A vector and a queue are lists; an unordered map is an association list with at most
-- one entry for a key, and an unordered set a list, in the order in which the code iterates. An
-- index beyond the vector of plates is undefined behaviour, where the model does nothing.
--
-- Parameters. The constructor of capability_parser reads a file, and is a function from the file's
-- name to the capabilities, `none` where it throws; random numbers, the attempts to reach the
-- conveyor and the status of setting AVAILABILITY are arguments.
--
-- What the robots, the controller and the kitchen answer to the conveyor are functions from a plate
-- or a position to the answer, for the round of a loop in which the code asks.
--
-- The controller and the kitchen keep a client for each robot. The client's members are a record in
-- the map; a failed call or read clears its flag `running`, and a step of the event loop may do so at
-- any time. What the robots answer to one handler is a record of answers, `none` for a read that
-- fails. The controller's calls of method nodes are listed in its state, and so are the kitchen's
-- requests that the controller has not answered. The policy is a parameter of the controller: a
-- function from what it sees of the robots and the actions that are left to its choice and its calls
-- of the two callbacks, which it makes after it has decided.
--
-- Threads. A handler runs to its end before another thread changes the state. The clients' threads
-- change the position, the capabilities and the flag of a robot between handlers.
--
-- Not modelled: the set-up of servers, clients and threads, discovery and reconnection, log lines
-- and statistics. A next_robot_receiver is its key in the map: the code reads nothing else of it.
pub mod Base
pub mod Actions
pub mod Capabilities
pub mod Recipe
pub mod Robot
pub mod Conveyor
pub mod Mape
pub mod Controller
pub mod Kitchen
pub mod Examples
