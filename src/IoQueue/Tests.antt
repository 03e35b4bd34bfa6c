-- ===== src/IoQueue/Tests.antt =====
-- A ring of four slots for the theorems on kernel/src/ioqueue.c and the pipes.
use a_os.Base.{◌≡◌, [], ◌∷◌, ◌++◌, arith}
use a_os.IoQueue.{IoQueue}
use a_os.IoQueue.Inv.{IsValid, empty_ring, init-IsValid, put-IsValid, after_put, ioq_put-pos}
use a_os.IoQueue.Queue.{contents}
use a_os.IoQueue.Pipe.{
  Run, run-fifo, PipeReads, pipe_read-PipeReads, WriteResult, pipe_write-WriteResult,
}

abbrev ring : IoQueue
ring = empty_ring (0 ∷ 0 ∷ 0 ∷ 0 ∷ []) 4

ring-IsValid : IsValid ring
ring-IsValid = (init-IsValid (0 ∷ 0 ∷ 0 ∷ 0 ∷ []) 4 (omega arith) (omega arith) (omega arith)).1

-- The ring with the byte 7.
abbrev one_byte : IoQueue
one_byte = after_put ring 7

one_byte-IsValid : IsValid one_byte
one_byte-IsValid = put-IsValid ring 7 ring-IsValid (omega arith)

stored : Run ring (7 ∷ []) [] one_byte
stored = Run.put 7 Run.start (ioq_put-pos ring 7 (omega arith))

run-fifo_example : IsValid one_byte × (contents ring ++ (7 ∷ []) ≡ [] ++ contents one_byte)
run-fifo_example = run-fifo ring-IsValid stored

pipe_read-PipeReads_example : PipeReads one_byte 5
pipe_read-PipeReads_example = pipe_read-PipeReads one_byte 5 one_byte-IsValid

pipe_write-WriteResult_example : WriteResult one_byte (1 ∷ 2 ∷ 3 ∷ []) 2
pipe_write-WriteResult_example =
    pipe_write-WriteResult one_byte (1 ∷ 2 ∷ 3 ∷ []) 2 one_byte-IsValid (omega arith)
