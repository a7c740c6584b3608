-- ===== src/Process/Tests.antt =====
-- The processes on concrete inputs.
use hpv_c.Base.{◌≡◌, refl, arith}
use hpv_c.Double.{Milli, milli_double}
use hpv_c.Process.Need.{Counts, derive_counts}
use hpv_c.Process.Work.{Work, work, begin, ended, running}
use hpv_c.Process.Work.Bounds.{IsWorking, work-IsWorking, work_stuck}

-- 20 VMs with COMP_PER_COMM 0.2
abbrev twenty : Counts
twenty = record { iterations = 12; comp = 2; comm = 11 }

twenty_lem : derive_counts {D = Milli} 20 200 ≡ twenty
unfolding derive_counts
twenty_lem = refl

work-IsWorking_example :
    (w : Work) × (work twenty 20 3 7 13 (begin 4) ≡ ended w) × (w.i ≡ 12) × IsWorking twenty 20 w
work-IsWorking_example =
    work-IsWorking twenty 20 3 7 4 (omega arith) (omega arith) (omega arith) (omega arith)

-- 5 VMs with COMP_PER_COMM 0.2
abbrev five : Counts
five = record { iterations = 3; comp = 0; comm = 2 }

five_lem : derive_counts {D = Milli} 5 200 ≡ five
unfolding derive_counts
five_lem = refl

work_stuck_example : work five 5 1 2 1000 (begin 3) ≡ running
work_stuck_example =
    work_stuck five 5 1 2 3 (omega arith) (omega arith) (omega arith) (omega arith) 1000
