-- ===== src/Examples/Streams.antt =====
-- Log streams of a running job.
use mittnite.Prelude.{◌≡◌, ◌≢◌, refl, String, true, false, none, [], ◌∷◌, negsuc, arith, eq_iff}
use mittnite.Proc.BaseJob.Streams.{
  taken, nobody_waits, Pass, reads, context_done, StdFile, stream_std_out,
  stream_std_out_and_std_err,
}
use mittnite.Proc.BaseJob.Streams.Follows.{sent-follow}
use mittnite.Examples.{web}

-- The third line comes before the client has taken the second.
abbrev pub first_pass : Pass
first_pass = record {
  lines = ("a", taken) ∷ ("b", nobody_waits) ∷ ("c", taken) ∷ [];
  failure = none;
}

abbrev pub out_file : StdFile
out_file = record {
  open_fails = none;
  present = [];
  held = λ i l. l;
  cancelled = λ n. false;
  turns = reads first_pass ∷ [];
}

abbrev pub err_file : StdFile
err_file = record out_file { turns = reads (record first_pass { lines = ("e", taken) ∷ [] }) ∷ [] }

pub out_given : ◌≢◌ {A = String} "/var/log/out" ""
out_given = ground (arith, eq_iff "/var/log/out" "")

-- The client that follows goes away after the first pass.
abbrev followed : StdFile
followed = record out_file { turns = reads first_pass ∷ context_done ∷ [] }

abbrev too_late : StdFile
too_late = record err_file { cancelled = λ n. true; turns = context_done ∷ [] }

sent-follow_example :
    (stream_std_out_and_std_err web.config.base true (negsuc 0) followed too_late).sent
    ≡ (stream_std_out web.config.base true (negsuc 0) followed).sent
sent-follow_example =
    sent-follow web.config.base (negsuc 0) followed too_late out_given refl
      (λ ended. record { opens = refl; at_once = refl; later = []; turns = refl })
