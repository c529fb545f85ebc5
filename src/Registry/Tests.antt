-- ===== src/Registry/Tests.antt =====
-- Runs of the registry, and its theorems at a concrete one.
use gnss_parser.Prelude.{◌+◌, ◌%◌, ◌^◌, true, false, List, [], ◌∷◌, some, ◌≡◌, refl, map, arith}
use gnss_parser.Prelude.Text.{Bytes, bytes_eq, codes, bytes_eq, starts_with}
use gnss_parser.Prelude.Map.{lookup}
use gnss_parser.Prelude.Int.{pos}
use gnss_parser.Registry.{
  Definition, Instance, Registry, active, compose_instance_id, instance_of, set_state, tick,
  tick_definitions, tick_instances, tick_one, timeout_of,
}
use gnss_parser.Registry.Timeouts.{tick_lem, after_tick, some_times_out}
use gnss_parser.Registry.Traces.{
  Call, report, clock, deactivate, after_calls, events, counted_in, events-after_calls,
}

abbrev serial : Bytes
serial = codes "serial"

abbrev serial_id : Bytes
serial_id = compose_instance_id serial []

abbrev at_serial : Registry → Instance
at_serial r = instance_of r serial_id

abbrev serial_definition : Definition
serial_definition = record {
  id = codes "serial";
  display_name = codes "Serial";
  deactivate_timeout = pos 1000;
}

abbrev seen : Instance
seen = record {
  state = active;
  active_count = 4;
  last_event_time = 7000000;
  last_transition_time = 7000000;
  last_detail = codes "open";
}

abbrev registry : Registry
registry = record {
  definitions = (serial, serial_definition) ∷ [];
  instances = (serial, seen) ∷ [];
}

known : lookup serial registry.definitions ≡ some serial_definition
unfolding lookup bytes_eq
known = refl

timed_out : (tick registry 1007000000).1 ≡ true
unfolding tick tick_definitions tick_instances tick_one timeout_of set_state starts_with
timed_out = refl

not_yet : (tick registry 1006999999).1 ≡ false
unfolding tick tick_definitions tick_instances tick_one timeout_of set_state starts_with
not_yet = refl

tick_lem_example : tick registry 1007000000 ≡ (
  record registry {
    instances = map (after_tick registry.definitions 1007000000) registry.instances;
  },
  some_times_out registry.definitions 1007000000 registry.instances,
)
tick_lem_example = tick_lem registry 1007000000

abbrev calls : List Call
calls =
    report serial [] [] 8000000
    ∷ clock 9000000
    ∷ deactivate serial [] [] 9000000
    ∷ report (codes "tcp") [] [] 9000000
    ∷ []

few : events serial registry ≡ 4
unfolding instance_of lookup bytes_eq compose_instance_id
few = refl

events-after_calls_example :
    events serial (after_calls registry calls)
    ≡ (events serial registry + counted_in serial registry calls) % 2 ^ 64
events-after_calls_example = events-after_calls serial calls registry (omega (arith, few))
