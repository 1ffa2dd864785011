-- ===== src/Entry/Sample.antt =====
-- The registers of the sample processor hold values of their widths.
use cosmo.Cpu.Sample.{program}
use cosmo.Entry.Frame.{IsCpu}
use cosmo.Memory.{Memory}
use cosmo.Prelude.{arith}

pub program-IsCpu : (m : Memory) → IsCpu (program m)
program-IsCpu m = record {
  eax_fits = omega arith;
  ecx_fits = omega arith;
  edx_fits = omega arith;
  ebx_fits = omega arith;
  ebp_fits = omega arith;
  esi_fits = omega arith;
  edi_fits = omega arith;
  esp_fits = omega arith;
  ds_fits = omega arith;
  es_fits = omega arith;
  fs_fits = omega arith;
  gs_fits = omega arith;
  cs_fits = omega arith;
  cr2_fits = omega arith;
  eip_fits = omega arith;
  eflags_fits = omega arith;
}
