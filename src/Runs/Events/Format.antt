-- ===== src/Runs/Events/Format.antt =====
-- The text that srcdiffvisual/runs/events.py yields for each frame.
use src_visual.Common.{String}
use src_visual.Runs.Types.{RunEvent}
use src_visual.Runs.Events.{Frame, event_frame, keep_alive}
use src_visual.Srcdiff.Elements.{decimal}
use Prim.Native.String.{◌++◌}

-- `_format_run_event`, given what `json.dumps` makes of the event.
pub format_run_event : (RunEvent → String) → RunEvent → String
format_run_event dumps e =
    "id: " ++ (decimal e.sequence ++ ("\nevent: run\ndata: " ++ (dumps e ++ "\n\n")))

pub frame_text : (RunEvent → String) → Frame → String
unfolding format_run_event
frame_text dumps (event_frame e) = format_run_event dumps e
frame_text dumps keep_alive = ": keep-alive\n\n"
