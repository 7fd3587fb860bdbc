-- ===== src/Leaf/Ifgeneric/Missing.antt =====
-- A link of which a statistic is missing.
use sflow.Memory.Endian.{Endian}
use sflow.Protocol.FlowRecord.{Memory}
use sflow.Protocol.Sample.{Sample}
use sflow.Source.Types.{Source}
