-- ===== src/Protocol/Datagram.antt =====
-- The datagram of sflow/sflow_protocol_branches.c. SFLOW_IPVER is 4: the branches for IPv6 are
-- dead code and left out.
pub mod Bytes
pub mod Pack
use sflow.Common
use sflow.Common.{ℕ, ◌+◌, ◌-◌, ◌%◌, ◌^◌, List, [], ◌∷◌, replicate, Outcome, ok, fault}
use sflow.Memory.Endian.{Endian, htonl}
use sflow.Memory.Layout.{Field, u32, chars, psize, char_array, struct_image}
use sflow.Memory.Buffer.{Buffer, Cmd, pure, ◌>>=◌, ◌>>◌, memcpy}
use sflow.DataList.{DataList, free}
use sflow.Protocol.FlowRecord.{Memory}
use sflow.Protocol.Sample.{Sample, sample_flat}
use sflow.Protocol.Sequence.{flat_each, sum_each}
use sflow.Protocol.CounterSample.Pack.{take_all}

-- sflow_dg_t, packed, and the samples whose pointers follow it; `v4` is the member of the union
-- of 16 bytes that is used.
pub record Datagram : Type 0 where
  pub sflow_ver : ℕ
  pub ip_ver : ℕ
  pub v4 : List ℕ
  pub sub_agent_id : ℕ
  pub dg_seq : ℕ
  pub up_time : ℕ
  pub sample_num : ℕ
  pub samples : List Sample

-- sizeof (sflow_dg_t)
abbrev pub sizeof_datagram : ℕ
sizeof_datagram = 48

unfoldable pub version_fields : Datagram → List Field
version_fields dg = u32 dg.sflow_ver ∷ u32 dg.ip_ver ∷ []

unfoldable pub agent_fields : Datagram → List Field
agent_fields dg = u32 dg.sub_agent_id ∷ u32 dg.dg_seq ∷ u32 dg.up_time ∷ u32 dg.sample_num ∷ []

-- sizeof (sflow_sp_t) - SFLOW_PSIZE * 2, and the length that the sample states
abbrev pub sample_size : Endian → Sample → ℕ
sample_size e sp = 8 + htonl e sp.len

-- The size of the packet: the structure without its pointer and the 12 bytes of the union that
-- IPv4 leaves unused, and the samples.
unfoldable pub datagram_size : Endian → Datagram → Outcome ℕ
datagram_size e dg =
    sum_each (sample_size e) (htonl e dg.sample_num) 0 dg.samples (sizeof_datagram - psize - 12)

unfoldable pub datagram_write : Endian → Memory → Datagram → Cmd ℕ
datagram_write e mem dg = do
  memcpy 0 (struct_image e (version_fields dg))
  memcpy 8 (char_array 4 dg.v4)
  memcpy 12 (struct_image e (agent_fields dg))
  flat_each (sample_flat e mem) (htonl e dg.sample_num) 0 dg.samples 28

-- sflow_datagram_flat returns the size and the buffer that it allocated, cleared by `calloc`.
unfoldable pub datagram_flat : Endian → Memory → Datagram → Outcome (ℕ × Buffer)
datagram_flat e mem dg =
    Common.◌>>=◌ (datagram_size e dg)
      λ size. Common.◌>>=◌ (datagram_write e mem dg (replicate size 0)) λ (_, buf). ok (size, buf)

-- sflow_datagram_pack. `seq` is the static `datagram_count`, `up_time` what get_up_time_sec
-- returns, and `agent_ip` the 4 bytes that inet_pton makes of the agent's address.
unfoldable pub datagram_pack : Endian → ℕ → ℕ → List ℕ → DataList Sample → Outcome (Datagram × ℕ)
datagram_pack e seq up_time agent_ip sample_list =
    Common.◌>>=◌ (take_all sample_list.count sample_list []) λ (rest, samples).
      Common.◌>>=◌ (free rest) λ _. ok (
        record {
          sflow_ver = htonl e 5;
          ip_ver = htonl e 1;
          v4 = agent_ip;
          sub_agent_id = htonl e 52;
          dg_seq = htonl e seq;
          up_time = htonl e up_time;
          sample_num = htonl e sample_list.count;
          samples = samples;
        },
        seq + 1,
      )
