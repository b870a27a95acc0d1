-- ===== src/Checks/LoadSensor.antt =====
-- The load sensor at concrete inputs: src/cmd/qrmi-ocs-load-sensor/main.go.
use qpu_resource.Prelude.{true, false, [], ◌∷◌, ◌++◌, ◌≡◌, ◌↔◌, refl, none, some, Text, codes}
use qpu_resource.Prelude.Int.{pos}
use qpu_resource.Strings.Scanner.{lines_of}
use qpu_resource.Errors.{ok, fails, other, failed}
use qpu_resource.Availability.{
  AvailabilityConfig, WardenConfig, warden_provider, Status, response, decoded, Surroundings,
  provider_status,
}
use qpu_resource.LoadSensor.{
  protocol_fields, Writer, write_report, run_protocol, run_sensor, reported, sensor_answer,
}
use qpu_resource.LoadSensor.Protocol.{reports, report, run_protocol-reports}
use qpu_resource.LoadSensor.Frames.{report_lines, lines_of-report}
use qpu_resource.LoadSensor.Readiness.{IsReady, reported-IsReady}

abbrev warden : WardenConfig
warden = record { base_url = codes "http://w"; endpoint = codes "/a"; tls_verify = true }

-- The scope would break a report's line.
abbrev config : AvailabilityConfig
config = record {
  load_sensor = record {
    enabled = true;
    scope = codes "h\nend";
    resource_name = [];
    slots_resource_name = codes "qpu_slots";
    provider = codes "warden";
    timeout_seconds = pos 0;
  };
  warden = warden;
  static = record { ready = false; state_file = [] };
}

abbrev surroundings : Surroundings
surroundings = record {
  state_file = λ path. fails (other 1);
  request = λ w. response 200 (decoded (some true) (some (pos 5)));
}

abbrev accepting : Writer
accepting out text = none

accepting-none : (out text : Text) → accepting out text ≡ none
accepting-none out text = refl

sensor_writes :
    run_sensor accepting config none
      (λ n. surroundings)
      none
      (codes "" ∷ codes " quit" ∷ codes "" ∷ [])
    ≡ (none, codes "begin\nglobal:qpu_ready:1\nglobal:qpu_slots:5\nend\n")
unfolding run_sensor write_report provider_status
sensor_writes = refl

run_protocol-reports_example :
    run_protocol accepting
      (λ n. sensor_answer (ok (warden_provider warden)) surroundings)
      (protocol_fields config)
      0
      (some (failed (other 3)))
      (codes "" ∷ codes "" ∷ [])
      []
    ≡ (
      some (failed (other 3)),
      []
          ++ reports
              (protocol_fields config)
              (λ n. sensor_answer (ok (warden_provider warden)) surroundings)
              0
              2,
    )
unfolding run_protocol
run_protocol-reports_example =
    run_protocol-reports accepting accepting-none
      (λ n. sensor_answer (ok (warden_provider warden)) surroundings) (protocol_fields config) 0
      (some (failed (other 3))) (codes "" ∷ codes "" ∷ []) []

abbrev five_slots : Status
five_slots = record {
  ready = true;
  reason = "warden reports accessible";
  slots_available = some (pos 5);
}

lines_of-report_example :
    lines_of (report (protocol_fields config) five_slots) ≡ report_lines config five_slots
lines_of-report_example = lines_of-report config five_slots

reported-IsReady_example :
    ((reported (sensor_answer (ok (warden_provider warden)) surroundings)).ready ≡ true)
    ↔ IsReady (ok (warden_provider warden)) surroundings
reported-IsReady_example = reported-IsReady (ok (warden_provider warden)) surroundings
