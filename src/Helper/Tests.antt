-- ===== src/Helper/Tests.antt =====
-- The helper gets two messages, and then WM_QUIT.
use seamlessrdp.Base.{◌≡◌, refl, true, [], ◌∷◌, some, codes}
use seamlessrdp.Shell.Launch.{amd64}
use seamlessrdp.Shell.Main.{library_name}
use seamlessrdp.Helper.{
  some_message, quit, Found, set_hooks, create_window, dispatch, free_library, Work, win_main,
  with_hookdll, message_loop, close_hookdll,
}
use seamlessrdp.Helper.Pump.{Pumps, win_main-Pumps}

abbrev busy : Found
busy = record {
  architecture = amd64;
  loads = true;
  set_hooks = true;
  get_instance_count = true;
  got = some_message 275 ∷ some_message 15 ∷ quit ∷ some_message 16 ∷ [];
}

win_main-busy : win_main busy ≡ record {
  calls = set_hooks ∷ create_window ∷ dispatch 275 ∷ dispatch 15 ∷ free_library ∷ [];
  result = some 0;
}
unfolding win_main with_hookdll message_loop close_hookdll library_name
win_main-busy = refl

win_main-Pumps_example :
    (w : Work) × (Pumps busy.got w
      × (win_main busy ≡ record { calls = set_hooks ∷ create_window ∷ w.calls; result = w.result }))
unfolding library_name
win_main-Pumps_example = win_main-Pumps busy (codes "seamlessrdp64.dll") refl refl refl refl
