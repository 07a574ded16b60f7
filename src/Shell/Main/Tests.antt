-- ===== src/Shell/Main/Tests.antt =====
-- A session on a 64-bit system that the helper joins, and that is told to be transient and ends.
use seamlessrdp.Base.{◌≡◌, refl, true, false, List, [], ◌∷◌, ◌++◌, none, some, codes, replicate}
use seamlessrdp.Base.Int.{pos, ◌-ℤ◌}
use seamlessrdp.Shell.Command.{persistent}
use seamlessrdp.Shell.Session.{
  Round, session_loop, body, should_terminate, apply_calls, survey, check_desktop, greet, reconnect,
  track_connection, only_known, is_startup, is_system, equal_nocase, to_lower, build_startup_procs,
  startup_ids,
}
use seamlessrdp.Shell.Session.Rounds.{view}
use seamlessrdp.Shell.Launch.{
  amd64, ready, ended, launch_helper, launch_app, check_idle, complain, show_failure, failure_text,
  utf8_to_utf16, kill_15_9, stop_waiting,
}
use seamlessrdp.Shell.Main.{
  Answers, first_session, win_main, serve, with_name, with_library, check_instances, finish,
  close_hookdll, log_off, build_system_procs, stop_helper, library_name, lacks_function, greeting,
  is_connected, is_desktop_hidden, read_values,
}
use seamlessrdp.Shell.Main.Welcome.{notices_of, view-serve}

abbrev answers : Answers
answers = record {
  cmdline = [];
  architecture = amd64;
  loads = true;
  exports = record {
    set_hooks = true;
    remove_hooks = true;
    get_instance_count = true;
    safe_move_window = true;
    safe_zchange = true;
    safe_focus = true;
    safe_set_state = true;
  };
  instance_count = pos 1;
  converts = λ s. s ++ 0 ∷ [];
  helper = some 300;
  idle = ready;
  session_id = 2;
  procs = some (record { session_id = 2; process_id = 100; name = codes "winlogon.exe" } ∷ []);
  sys_procs = none;
  connect_state = some 0;
  desktop_opens = true;
  window = true;
  wait = ended;
  terminated = false;
}

abbrev round : Round
round = record {
  connected = true;
  tested_at = 1000;
  now = 1000;
  hidden = false;
  mbox_cnt = 0;
  procs = some (record { session_id = 2; process_id = 100; name = codes "winlogon.exe" } ∷ []);
  calls = persistent 1 (pos 0) ∷ [];
}

abbrev rounds : List Round
rounds = replicate 6 round

-- the sixth test ends the loop
win_main-rounds : (win_main answers rounds).result ≡ some (pos 1)
unfolding win_main with_name with_library check_instances serve finish close_hookdll log_off
    stop_helper library_name lacks_function greeting first_session is_connected is_desktop_hidden
    build_system_procs read_values session_loop body should_terminate apply_calls survey
    check_desktop greet reconnect track_connection only_known is_startup is_system equal_nocase
    to_lower build_startup_procs startup_ids launch_helper launch_app check_idle complain
    show_failure failure_text utf8_to_utf16 kill_15_9 stop_waiting ◌-ℤ◌
win_main-rounds = refl

view-serve_example :
    view true (notices_of (serve answers rounds).deeds)
    ≡ (session_loop rounds (pos 5) (first_session answers)).1.desktop_hidden
view-serve_example = view-serve true answers rounds
