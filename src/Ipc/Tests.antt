-- ===== src/Ipc/Tests.antt =====
-- kernel/ipc.c, tried on the sample kernel.
use dragoon_kernel.Prelude.{◌≡◌, none}
use dragoon_kernel.Prelude.Int.{pos, minus_one}
use dragoon_kernel.Kernel.{Kernel, IpcMessage}
use dragoon_kernel.Sample.{sample}
use dragoon_kernel.Ipc.{ipc_send, ipc_recv, ipc_endpoint_destroy}
use dragoon_kernel.Ipc.Endpoints.{ipc_endpoint_destroy_lem}

abbrev hello : IpcMessage
hello = record { data0 = 72; data1 = 105; data2 = 0; data3 = 0; cap_transfer = minus_one }

abbrev nothing : Kernel → Kernel
nothing k = k

ipc_endpoint_destroy_lem_example :
    (ipc_send nothing 0 (pos 3) hello (ipc_endpoint_destroy (pos 3) sample)
      ≡ (minus_one, ipc_endpoint_destroy (pos 3) sample))
    × (ipc_recv nothing 0 (pos 3) (ipc_endpoint_destroy (pos 3) sample)
        ≡ (none, ipc_endpoint_destroy (pos 3) sample))
ipc_endpoint_destroy_lem_example = ipc_endpoint_destroy_lem nothing 0 (pos 3) hello sample
