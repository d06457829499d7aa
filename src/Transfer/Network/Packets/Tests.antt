-- ===== src/Transfer/Network/Packets/Tests.antt =====
-- Up to the RR of both blocks, nothing but packets was sent.
use cpe464_program.Common.{arith, inl, refl}
use cpe464_program.Transfer.Network.Packets.{SendPackets, network_carries_packets}
use cpe464_program.Transfer.Network.Tests.{
  buffer, buffers_made, file, file-IsBytes, heard, memory, moment_7, net, stack,
}

network_carries_packets_example : SendPackets moment_7
network_carries_packets_example =
    network_carries_packets 2 file (omega arith) file-IsBytes stack 3 memory memory 2 2 (buffer 2)
      (buffer 0) net net (omega arith) (omega arith) (omega arith) buffers_made.0 buffers_made.1
      refl refl (inl heard)
