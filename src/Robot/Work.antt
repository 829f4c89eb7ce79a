-- ===== src/Robot/Work.antt =====
-- The handlers that run on the worker thread of a robot (robot.cpp).
pub mod Timing
pub mod Dish
pub mod Orders
pub mod Adaptation
unfoldable pub use opcua_cps_kitchen.Robot.Work.Timing.{
  time_unit, time_unit_update_rate, move_time, reconfiguration_time, expiry, stop, arm, post,
  pop_steps, add32, sub32, sub64,
}
unfoldable pub use opcua_cps_kitchen.Robot.Work.Dish.{
  retooling_for, compute_loop, compute_overall_time_and_determine_last_tool,
  reset_in_process_fields, receive_finished_order_notification_called, notify_conveyor,
  begin_action, go_on, determine_next_action, count_action, perform_action, action_performed, tick,
  go_on_passing, pass_time, change_tool, equip, retool,
}
unfoldable pub use opcua_cps_kitchen.Robot.Work.Orders.{
  handle_switch_position, handle_reconfiguration, start_order, name_dish, take_order, by_state,
  cook_next_order, new_order, enqueue, cook_unless_busy, accept_task, handle_receive_task,
}
unfoldable pub use opcua_cps_kitchen.Robot.Work.Adaptation.{
  move_to_new_position, commit_position, handle_new_position_commit,
  set_current_and_last_equipped_tool, load_profile, clear_orders, receive_again,
  end_reconfiguration, reconfigure_locked, complete_reconfiguration,
}
pub use opcua_cps_kitchen.Robot.Work.Dish.{
  Reply, bad_size, bad_type, returned, Attempt, failed, stopped, answered,
}
