-- ===== src/Service/Tests.antt =====
-- A run of src/main.cpp that a signal ends behind three readings of the flag.
use autodngconverter.Base.{refl, arith, true, leb}
use autodngconverter.Config.{default_config}
use autodngconverter.Service.{System, main}
use autodngconverter.Service.Order.{HasEnded, main-HasEnded}

abbrev system : System
system = record {
  open_store = true;
  migrate = λ dir. true;
  available = true;
  stop = λ i. leb 2 i;
  api_stops = true;
  worker_stops = true;
  rotation_stops = true;
}

main-HasEnded_example : HasEnded 0 (main 9 system default_config)
main-HasEnded_example =
    main-HasEnded 9 2 system default_config (refl, refl, refl) refl (omega arith)
